-- ===== src/Avtab/Table.antt =====
-- Insertion into the table and search in it.
use ap_policy.Common.Buckets.{chain_at-put_chain, length-put_chain, not_null, chain_at, put_chain}
use ap_policy.Common.{
  ℕ, ◌+◌, ◌%◌, ◌≤◌, ◌<◌, ◌≡◌, refl, ap, subst, ◌∙◌, Option, some, none, List, arith, ◌==◌, bit_and,
  Bool-cases, Option-cases, inl, inr, length,
}
use ap_policy.Common.Bits.{bit_and-le}
use ap_policy.Avtab.{
  Key, Datum, AvtabNode, Avtab, hash, kinds, new_node, search_chain, search_at, insert_nonunique_at,
  datum_of, insert_chain_nonunique, xperms_bits, u32_mod,
}
use ap_policy.Avtab.Chain.{
  IsSorted, found, first_match, search_chain-first_match, Inserted, insert_chain_nonunique-Inserted,
}

-- every chain is in order, and the mask leads to a chain
pub record IsValid (h : Avtab) : Type 0 where
  pub room : h.mask < length h.htable
  pub sorted : (i : ℕ) → IsSorted (chain_at i h.htable)

pub hash-le : (key : Key) (mask : ℕ) → hash key mask ≤ mask
unfolding hash
hash-le key mask = bit_and-le _ mask

abbrev pub node_datum : Option AvtabNode → Option Datum
node_datum none = none
node_datum (some n) = some n.datum

datum_of-found :
    (key : Key) (specified : ℕ) (chain : List AvtabNode)
    → datum_of (search_chain key specified chain) ≡ node_datum (found key specified chain)
datum_of-found key specified chain = elim (Option-cases (search_chain key specified chain)) [
  | inl none_found ↦ rw (none_found, found, datum_of) refl
  | inr (n, found_it) ↦ rw (found_it, found, datum_of) refl
]

-- a search is one for the first match in the chain of the hash value
pub search_at-first_match :
    (h : Avtab) (hvalue : ℕ) (key : Key)
    → hvalue < length h.htable
    → IsSorted (chain_at hvalue h.htable)
    → datum_of (search_at h hvalue key)
      ≡ node_datum (first_match key (kinds key.specified) (chain_at hvalue h.htable))
unfolding search_at
search_at-first_match h hvalue key room s =
    let chain = chain_at hvalue h.htable in
    ap datum_of (rw (not_null h.htable hvalue room, search_at) refl)
    ∙ datum_of-found key (kinds key.specified) chain
    ∙ ap node_datum (search_chain-first_match key (kinds key.specified) chain s)

pub new_node-key : (key : Key) (datum : Datum) → (new_node key datum).key ≡ key
unfolding new_node
new_node-key key datum = elim (Bool-cases (bit_and key.specified xperms_bits == 0)) [
  | inl plain ↦ rw (plain, new_node) refl
  | inr extended ↦ rw (extended, new_node) refl
]

-- the chain with the node in it, and the table with that chain
module _ (h : Avtab) (hvalue : ℕ) (key : Key) (datum : Datum) where
  abbrev pub new_chain : List AvtabNode
  new_chain =
      insert_chain_nonunique key (kinds key.specified) (new_node key datum)
        (chain_at hvalue h.htable)

  abbrev pub after : Avtab
  after = record h { htable = put_chain hvalue new_chain h.htable; nel = (h.nel + 1) % u32_mod }

  module _ (v : IsValid h) (room : hvalue < length h.htable) where
    pub new_chain-Inserted :
        Inserted key (kinds key.specified) (new_node key datum) (chain_at hvalue h.htable) new_chain
    new_chain-Inserted =
        subst
          (λ k. Inserted k (kinds key.specified) (new_node key datum) (chain_at hvalue h.htable) (
            insert_chain_nonunique k (kinds key.specified) (new_node key datum)
              (chain_at hvalue h.htable)))
          (new_node-key key datum)
          (insert_chain_nonunique-Inserted (kinds key.specified) (new_node key datum)
            (chain_at hvalue h.htable) (v.sorted hvalue))

    pub after-IsValid : IsValid after
    after-IsValid = record {
      room = omega (arith, length-put_chain hvalue new_chain h.htable, v.room);
      sorted = λ i.
          rw (chain_at-put_chain hvalue i new_chain h.htable room)
            (elim (Bool-cases (i == hvalue)) [
              | inl here ↦ rw here new_chain-Inserted.sorted
              | inr other ↦ rw other (v.sorted i)
            ]);
    }

    pub insert_nonunique_at-after : insert_nonunique_at h hvalue key datum ≡ some after
    unfolding insert_nonunique_at
    insert_nonunique_at-after = rw (not_null h.htable hvalue room) refl

    -- a search in the chain of the hash value, after the insertion
    pub search_at-after :
        (k : Key)
        → datum_of (search_at after hvalue k)
          ≡ node_datum (first_match k (kinds k.specified) new_chain)
    search_at-after k =
        let put : chain_at hvalue after.htable ≡ new_chain =
          chain_at-put_chain hvalue hvalue new_chain h.htable room ∙ ground arith in
        search_at-first_match after hvalue k
          (omega (arith, length-put_chain hvalue new_chain h.htable)) (after-IsValid.sorted hvalue)
        ∙ ap (λ c. node_datum (first_match k (kinds k.specified) c)) put
