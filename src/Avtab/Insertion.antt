-- ===== src/Avtab/Insertion.antt =====
-- `avtab_insert` and `avtab_insert_nonunique` as `avtab_search` sees them.
use ap_policy.Common.Buckets.{chain_at-put_chain, chain_at, is_null}
use ap_policy.Common.{
  ℕ, ◌^◌, ◌<◌, ◌≡◌, ◌≢◌, refl, sym, ap, ◌∙◌, Bool, true, false, Option, some, none, arith, ◌==◌,
  ==_iff, if◌then◌else◌, ◌&&◌, bit_and, Bool-cases, Option-cases, inl, inr, length,
}
use ap_policy.Common.Bits.{test_bit, test_bit-and, eq_of_test_bit, bit_and-lt}
use ap_policy.Common.Results.{Result, ok, err, enomem, eexist}
use ap_policy.Avtab.{
  Key, Datum, Avtab, hash, kinds, matches, new_node, insert, insert_nonunique, search, search_node,
  search_chain, search_at, insert_at, insert_nonunique_at, datum_of, xperms_bits,
}
use ap_policy.Avtab.Chain.{is_some, first_match, insert_chain-nonunique}
use ap_policy.Avtab.Table.{
  IsValid, hash-le, node_datum, search_at-first_match, new_node-key, new_chain, after,
  after-IsValid, insert_nonunique_at-after, search_at-after, new_chain-Inserted,
}

-- the return value of `avtab_insert` where it inserts
abbrev pub result_of : Option Avtab → Result Avtab
result_of none = err enomem
result_of (some h) = ok h

insert_at-nonunique :
    (h : Avtab) (hvalue : ℕ) (key : Key) (datum : Datum)
    → insert_at h hvalue key datum ≡ (
        if is_some (datum_of (search_at h hvalue key))
          && (bit_and (kinds key.specified) xperms_bits == 0)
        then err eexist
        else result_of (insert_nonunique_at h hvalue key datum))
unfolding insert_at insert_nonunique_at search_at
insert_at-nonunique h hvalue key datum = elim (Bool-cases (is_null h.htable)) [
  | inl null ↦ rw (null, insert_at, search_at, insert_nonunique_at) refl
  | inr there ↦
      let chain = chain_at hvalue h.htable in
      rw
        (
          there,
          insert_at,
          search_at,
          insert_nonunique_at,
          insert_chain-nonunique key (kinds key.specified) (new_node key datum) chain,
        )
        (elim (Option-cases (search_chain key (kinds key.specified) chain)) [
          | inl missing ↦ rw (missing, is_some, datum_of) refl
          | inr (n, hit) ↦
              rw (hit, is_some, datum_of)
                (elim (Bool-cases (bit_and (kinds key.specified) xperms_bits == 0)) [
                  | inl unique ↦ rw unique refl
                  | inr many ↦ rw many refl
                ])
        ])
]

-- `avtab_insert` returns SEPOL_EEXIST exactly when `avtab_search` finds the key and its kind is none
-- of the extended permissions; otherwise it leaves the table that `avtab_insert_nonunique` leaves, or
-- returns SEPOL_ENOMEM when that has no table to insert into.
pub insert-nonunique :
    (h : Avtab) (key : Key) (datum : Datum)
    → insert h key datum ≡ (
        if is_some (search h key) && (bit_and (kinds key.specified) xperms_bits == 0)
        then err eexist
        else result_of (insert_nonunique h key datum))
unfolding insert search search_node insert_nonunique
insert-nonunique h key datum = insert_at-nonunique h (hash key h.mask) key datum

-- a key matches itself when it names a kind of rule
matches_self :
    (key : Key)
    → key.specified < 2 ^ 16
    → kinds key.specified ≢ 0
    → matches key (kinds key.specified) key ≡ true
unfolding matches
matches_self key small some_kind =
    let s = key.specified in
    let m = kinds s in
    let low : m < 2 ^ 16 = bit_and-lt 16 s 0x7fff small in
    let same : bit_and m s ≡ m =
      eq_of_test_bit 16 (bit_and m s) m (bit_and-lt 16 m s low) low (λ k h.
        rw (test_bit-and m s k, test_bit-and s 0x7fff k)
          (twice (test_bit s k) (test_bit 0x7fff k))) in
    rw same (ground arith)
  where
    twice : (a b : Bool) → ((a && b) && a) ≡ (a && b)
    twice true true = refl
    twice true false = refl
    twice false b = refl

-- what an insertion does to the searches
pub record Stored (h : Avtab) (key : Key) (datum : Datum) (h' : Avtab) : Type 0 where
  pub valid : IsValid h'
  pub hit : search h' key ≡ some (new_node key datum).datum
  pub same : (k : Key) → matches k (kinds k.specified) key ≡ false → search h' k ≡ search h k

module _ (h : Avtab) (key : Key) (datum : Datum) (v : IsValid h) where
  abbrev slot : ℕ
  slot = hash key h.mask

  slot-lt : slot < length h.htable
  slot-lt = omega (arith, hash-le key h.mask, v.room)

  abbrev stored : Avtab
  stored = after h slot key datum

  stored_hit :
      matches key (kinds key.specified) key ≡ true
      → search stored key ≡ some (new_node key datum).datum
  unfolding search search_node
  stored_hit own =
      let inserted = new_chain-Inserted h slot key datum v slot-lt in
      let at_new : matches key (kinds key.specified) (new_node key datum).key ≡ true =
        ap (matches key (kinds key.specified)) (new_node-key key datum) ∙ own in
      search_at-after h slot key datum v slot-lt key ∙ ap node_datum (inserted.head at_new)

  stored_same : (k : Key) → matches k (kinds k.specified) key ≡ false → search stored k ≡ search h k
  unfolding search search_node
  stored_same k other =
      let inserted = new_chain-Inserted h slot key datum v slot-lt in
      let past_new : matches k (kinds k.specified) (new_node key datum).key ≡ false =
        ap (matches k (kinds k.specified)) (new_node-key key datum) ∙ other in
      let where_k = hash k h.mask in
      let k-lt : where_k < length h.htable = omega (arith, hash-le k h.mask, v.room) in
      let old = search_at-first_match h where_k k k-lt (v.sorted where_k) in
      let valid = after-IsValid h slot key datum v slot-lt in
      let new =
        search_at-first_match stored where_k k (omega (arith, hash-le k h.mask, valid.room))
          (valid.sorted where_k) in
      let chain : first_match k (kinds k.specified) (chain_at where_k stored.htable)
          ≡ first_match k (kinds k.specified) (chain_at where_k h.htable) =
        ap (first_match k (kinds k.specified))
          (chain_at-put_chain slot where_k (new_chain h slot key datum) h.htable slot-lt)
        ∙ (elim (Bool-cases (where_k == slot)) [
          | inl here ↦
              let e : where_k ≡ slot = (==_iff where_k slot).0 here in
              rw here (
                inserted.same k (kinds k.specified) past_new
                ∙ ap (λ i. first_match k (kinds k.specified) (chain_at i h.htable)) (sym e))
          | inr there ↦ rw there refl
        ]) in
      new ∙ ap node_datum chain ∙ sym old

-- On a valid table `avtab_insert_nonunique` succeeds for a key that names a kind of rule. The table
-- stays valid, a search for the key finds the datum just inserted, and a search for any key that the
-- new node does not match finds what it found before.
pub insert_nonunique-Stored :
    (h : Avtab) (key : Key) (datum : Datum)
    → IsValid h
    → key.specified < 2 ^ 16
    → kinds key.specified ≢ 0
    → (h' : Avtab) × (insert_nonunique h key datum ≡ some h') × Stored h key datum h'
unfolding insert_nonunique
insert_nonunique-Stored h key datum v small some_kind = (
  stored h key datum v,
  insert_nonunique_at-after h (hash key h.mask) key datum v (slot-lt h key datum v),
  record {
    valid = after-IsValid h (hash key h.mask) key datum v (slot-lt h key datum v);
    hit = stored_hit h key datum v (matches_self key small some_kind);
    same = stored_same h key datum v;
  },
)
