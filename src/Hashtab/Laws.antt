-- ===== src/Hashtab/Laws.antt =====
-- The hash table as a finite map: what the insertion, the removal and the resizing do to the searches.
use ap_policy.Common.{
  ℕ, ◌+◌, ◌-◌, ◌*◌, ◌%◌, ◌<◌, ◌≡◌, refl, sym, ap, subst, ◌∙◌, Option, some, none, arith, ◌==◌,
  ==_iff, Bool-cases, Option-cases, ◌⊎◌, inl, inr, ◌≢◌,
}
use ap_policy.Common.Buckets.{chain_at, empty_chains}
use ap_policy.Common.Results.{Result, ok, err, enomem, eexist, enoent}
use ap_policy.Hashtab.{
  u32_mod, KeyOps, KeyLaws, Entry, Hashtab, create, search_chain, insert_sorted, search,
  check_resize, grow_size, insert_chain, insert_resized, insert, remove, destroyed,
}
use ap_policy.Hashtab.Chain.{All, at_equal, insert_sorted-Inserted, insert_chain-search_chain}
use ap_policy.Hashtab.Chain.Remove.{remove_chain-Removed, remove_chain_refuses}
use ap_policy.Hashtab.Place.{InOrder, empty-InOrder, lookup-empty, put-InOrder, put_lookup}
use ap_policy.Hashtab.Growth.{grow_size_ends}
use ap_policy.Hashtab.Resize.{move_chains-Rest}

zero_add : (j : ℕ) → j ≡ 0 + j
zero_add j = omega arith

sub_zero : (j : ℕ) → j - 0 ≡ j
sub_zero j = omega arith

pub nel-create : (K D : Type 0) (size : ℕ) → (create {K = K} {D = D} size).nel ≡ 0
unfolding create
nel-create K D size = refl

module _ {K D : Type 0} (ops : KeyOps K) where
  abbrev pub IsValid : Hashtab K D → Type 0
  IsValid h = InOrder ops h.size h.htable

  pub create-IsValid : (size : ℕ) → 0 < size → IsValid (create size)
  unfolding create
  create-IsValid size pos = empty-InOrder ops size pos

  pub search-create : (size : ℕ) (k : K) → search {D = D} ops (create size) k ≡ none
  unfolding create search
  search-create size k = lookup-empty ops size k

  -- the same entries in an array that is in order
  pub record Resized (h made : Hashtab K D) : Type 0 where
    pub valid : IsValid made
    pub same : (k : K) → search ops made k ≡ search ops h k
    pub count : made.nel ≡ h.nel
    pub room : (h.nel < made.size) ⊎ (made.size * 2 % u32_mod ≡ 0)

  module _ (laws : KeyLaws ops) where
    -- The resizing of a table in order leaves a table in order that finds the same datum for every key and
    -- counts the same entries, and its slots are then more than the entries, unless twice the slots wraps
    -- to 0.
    pub check_resize-Resized : (h : Hashtab K D) → IsValid h → Resized h (check_resize ops h)
    unfolding check_resize search
    check_resize-Resized h v =
        let new_size = grow_size 32 h.size h.nel in
        let g = grow_size_ends h.size h.nel in
        elim (Bool-cases (h.size == new_size)) [
          | inl same ↦
              let e : h.size ≡ new_size = (==_iff h.size new_size).0 same in
              rw (check_resize, same)
                (record { valid = v; same = λ k. refl; count = refl; room = rw e g.ends })
          | inr other ↦
              let r =
                move_chains-Rest ops laws new_size (ops.hash_value h.size) 0 h.htable
                  (empty_chains new_size) v.sorted
                  (λ j.
                    subst (λ n. All ops (λ k. ops.hash_value h.size k ≡ n) (chain_at j h.htable))
                      (zero_add j) (v.hashed j))
                  (empty-InOrder ops new_size (g.pos v.pos))
                  (λ k le. lookup-empty ops new_size k) in
              rw (check_resize, other)
                (record {
                  valid = r.in_order;
                  same = λ k.
                      r.from k (omega arith)
                      ∙ ap (λ n. search_chain ops k (chain_at n h.htable))
                          (sub_zero (ops.hash_value h.size k));
                  count = refl;
                  room = g.ends;
                })
        ]

    -- a table after a change of one key
    pub record Changed (h made : Hashtab K D) (key : K) (d : Option D) : Type 0 where
      pub valid : IsValid made
      pub found : (k : K) → search ops made k ≡ at_equal (ops.keycmp k key) d (search ops h k)

    insert_resized-Changed :
        (h : Hashtab K D) (key : K) (d : D)
        → IsValid h
        → search ops h key ≡ none
        → (Changed h (insert_resized ops h key d).0 key (some d))
          × ((insert_resized ops h key d).0.nel ≡ h.nel + 1)
          × ((insert_resized ops h key d).1 ≡ ok tt)
    unfolding insert_resized search
    insert_resized-Changed h key d v gone =
        let hvalue = ops.hash_value h.size key in
        let e : Entry K D = record { key = key; datum = d } in
        let chain = chain_at hvalue h.htable in
        let i =
          insert_sorted-Inserted ops laws (λ k. ops.hash_value h.size k ≡ hvalue) e chain
            (v.sorted hvalue) gone in
        let run : insert_chain ops e chain ≡ some (insert_sorted ops e chain) =
          insert_chain-search_chain ops e chain ∙ rw gone refl in
        rw (insert_resized, run)
          (
            record {
              valid =
                  put-InOrder ops h.size laws key h.htable v _ (i.sorted (v.sorted hvalue))
                    (i.all refl (v.hashed hvalue));
              found = put_lookup ops h.size laws key h.htable v _ (some d) i.found;
            },
            refl,
            refl,
          )

    insert_resized_refuses :
        (h : Hashtab K D) (key : K) (d there : D)
        → search ops h key ≡ some there
        → insert_resized ops h key d ≡ (h, err eexist)
    unfolding insert_resized search
    insert_resized_refuses h key d there found =
        let e : Entry K D = record { key = key; datum = d } in
        let run : insert_chain ops e (chain_at (ops.hash_value h.size key) h.htable) ≡ none =
          insert_chain-search_chain ops e (chain_at (ops.hash_value h.size key) h.htable)
          ∙ rw found refl in
        rw (insert_resized, run) refl

    -- what an insertion does, by what the table held
    pub data Insertion (h : Hashtab K D) (key : K) (d : D) (made : Hashtab K D)
        (result : Result (Unit {0})) : Type 0 where
      inserted :
          search ops h key ≡ none
          → h.nel ≢ u32_mod - 1
          → Changed h made key (some d)
          → made.nel ≡ h.nel + 1
          → result ≡ ok tt
          → Insertion h key d made result
      refused :
          (there : D)
          → search ops h key ≡ some there
          → h.nel ≢ u32_mod - 1
          → Resized h made
          → result ≡ err eexist
          → Insertion h key d made result
      full : h.nel ≡ u32_mod - 1 → made ≡ h → result ≡ err enomem → Insertion h key d made result

    insert_resized-Insertion :
        (h mid : Hashtab K D) (key : K) (d : D)
        → h.nel ≢ u32_mod - 1
        → Resized h mid
        → Insertion h key d (insert_resized ops mid key d).0 (insert_resized ops mid key d).1
    insert_resized-Insertion h mid key d small r = elim (Option-cases (search ops mid key)) [
      | inl gone ↦
          let (c, n, e) = insert_resized-Changed mid key d r.valid gone in
          inserted (sym (r.same key) ∙ gone) small
            (record {
              valid = c.valid;
              found = λ k. c.found k ∙ ap (at_equal (ops.keycmp k key) (some d)) (r.same k);
            })
            (n ∙ ap (λ x. x + 1) r.count) e
      | inr (there, found) ↦
          rw (insert_resized_refuses mid key d there found)
            (refused there (sym (r.same key) ∙ found) small r refl)
    ]

    -- An insertion into a table in order does one of three things. A key that is not there is added:
    -- every search then finds the new datum at that key and what it found before elsewhere, the count grows
    -- by 1, and the table stays in order. A key that is there is refused with SEPOL_EEXIST, and no search
    -- finds anything else than before. A table whose count is 2^32 - 1 is left as it is, with SEPOL_ENOMEM.
    pub insert-Insertion :
        (h : Hashtab K D) (key : K) (d : D)
        → IsValid h
        → Insertion h key d (insert ops h key d).0 (insert ops h key d).1
    unfolding insert
    insert-Insertion h key d v = elim (Bool-cases (h.nel == u32_mod - 1)) [
      | inl most ↦ rw (insert, most) (full ((==_iff h.nel (u32_mod - 1)).0 most) refl refl)
      | inr less_than ↦
          rw (insert, less_than)
            (insert_resized-Insertion h (check_resize ops h) key d
              (λ e. let bad = sym less_than ∙ (==_iff h.nel (u32_mod - 1)).1 e in cc)
              (check_resize-Resized h v))
    ]

    -- what a removal does, by what the table held
    pub data Removal {S : Type 0} (h : Hashtab K D) (key : K) (destroy : Option (S → K → D → S))
        (args : S) (made : Hashtab K D) (args' : S) (result : Result (Unit {0})) : Type 0 where
      removed :
          (there : D)
          → search ops h key ≡ some there
          → Changed h made key none
          → made.nel ≡ (h.nel + u32_mod - 1) % u32_mod
          → args' ≡ destroyed ops destroy args key there
          → result ≡ ok tt
          → Removal h key destroy args made args' result
      absent :
          search ops h key ≡ none
          → made ≡ h
          → args' ≡ args
          → result ≡ err enoent
          → Removal h key destroy args made args' result

    -- A removal from a table in order of a key that is there leaves a table in order in which the search
    -- of that key finds nothing and every other search what it found before, with the count smaller by 1
    -- modulo 2^32, and the caller's `destroy`, unless it is null, has been called once, with the key and
    -- the datum that it had; a key that is not there gives SEPOL_ENOENT, no call, and the table as it is.
    pub remove-Removal :
        {S : Type 0} (h : Hashtab K D) (key : K) (destroy : Option (S → K → D → S)) (args : S)
        → IsValid h
        → Removal h key destroy args
            (remove ops h key destroy args).0
            (remove ops h key destroy args).1
            (remove ops h key destroy args).2
    unfolding remove search
    remove-Removal h key destroy args v =
        let hvalue = ops.hash_value h.size key in
        let chain = chain_at hvalue h.htable in
        elim (Option-cases (search ops h key)) [
          | inl gone ↦
              rw
                (
                  remove,
                  remove_chain_refuses ops laws (λ k. ops.hash_value h.size k ≡ hvalue) key chain
                      gone,
                )
                (absent gone refl refl refl)
          | inr (there, found) ↦
              let (left, run, r) =
                remove_chain-Removed ops laws (λ k. ops.hash_value h.size k ≡ hvalue) key there
                  chain (v.sorted hvalue) found in
              rw (remove, run)
                (removed there found
                  (record {
                    valid =
                        put-InOrder ops h.size laws key h.htable v left r.sorted
                          (r.all (v.hashed hvalue));
                    found = put_lookup ops h.size laws key h.htable v left none r.found;
                  })
                  refl refl refl)
        ]
