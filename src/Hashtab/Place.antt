-- ===== src/Hashtab/Place.antt =====
-- An array of chains that is in order, and one entry placed in it.
use ap_policy.Common.{
  ℕ, ◌<◌, ◌≡◌, refl, sym, ap, ◌∙◌, false, Option, some, none, List, arith, ◌==◌, ==_iff, Bool-cases,
  inl, inr, length,
}
use ap_policy.Common.Buckets.{
  chain_at, put_chain, chain_at-put_chain, length-put_chain, empty_chains, length-empty_chains,
  chain_at-empty_chains,
}
use ap_policy.Hashtab.{KeyOps, KeyLaws, Entry, place, search_chain}
use ap_policy.Hashtab.Chain.{
  is_less, is_equal, is_greater, sign_case, at_equal, IsSorted, All, insert_sorted-Inserted,
}

module _ {K D : Type 0} (ops : KeyOps K) (size : ℕ) where
  -- chains in order, each of keys with that hash value
  pub record InOrder (cs : List (List (Entry K D))) : Type 0 where
    pub slots : length cs ≡ size
    pub pos : 0 < size
    pub sorted : (i : ℕ) → IsSorted ops (chain_at i cs)
    pub hashed : (i : ℕ) → All ops (λ k. ops.hash_value size k ≡ i) (chain_at i cs)

  -- the datum of a key in the chain of its hash value
  abbrev pub lookup : List (List (Entry K D)) → K → Option D
  lookup cs k = search_chain ops k (chain_at (ops.hash_value size k) cs)

  pub empty-InOrder : 0 < size → InOrder (empty_chains size)
  empty-InOrder pos = record {
    slots = length-empty_chains (Entry K D) size;
    pos = pos;
    sorted = λ i. rw (chain_at-empty_chains (Entry K D) size i) tt;
    hashed = λ i. rw (chain_at-empty_chains (Entry K D) size i) tt;
  }

  pub lookup-empty : (k : K) → lookup (empty_chains size) k ≡ none
  lookup-empty k =
      rw (chain_at-empty_chains (Entry K D) size (ops.hash_value size k))
        (unfold search_chain in refl)

  module _ (laws : KeyLaws ops) (key : K) (cs : List (List (Entry K D))) (v : InOrder cs) where
    abbrev slot : ℕ
    slot = ops.hash_value size key

    pub slot-lt : slot < length cs
    slot-lt = omega (arith, laws.hash-lt size key v.pos, v.slots)

    -- the chain of a hash value exchanged for another
    module _ (made : List (Entry K D)) where
      pub put-InOrder :
          IsSorted ops made
          → All ops (λ k. ops.hash_value size k ≡ slot) made
          → InOrder (put_chain slot made cs)
      put-InOrder s a = record {
        slots = length-put_chain slot made cs ∙ v.slots;
        pos = v.pos;
        sorted = λ i.
            rw (chain_at-put_chain slot i made cs slot-lt) (elim (Bool-cases (i == slot)) [
              | inl here ↦ rw here s
              | inr there ↦ rw there (v.sorted i)
            ]);
        hashed = λ i.
            rw (chain_at-put_chain slot i made cs slot-lt) (elim (Bool-cases (i == slot)) [
              | inl here ↦ let e : i ≡ slot = (==_iff i slot).0 here in rw (here, e) a
              | inr there ↦ rw there (v.hashed i)
            ]);
      }

      -- a lookup differs at most for keys of that hash value, and then by what the search finds
      pub put_lookup :
          (d : Option D)
          → ((k : K)
              → search_chain ops k made
                ≡ at_equal (ops.keycmp k key) d (search_chain ops k (chain_at slot cs)))
          → (k : K)
          → lookup (put_chain slot made cs) k ≡ at_equal (ops.keycmp k key) d (lookup cs k)
      put_lookup d found k =
          let hk = ops.hash_value size k in
          elim (Bool-cases (hk == slot)) [
            | inl here ↦
                let e : hk ≡ slot = (==_iff hk slot).0 here in
                ap (search_chain ops k) (chain_at-put_chain slot hk made cs slot-lt ∙ rw here refl)
                ∙ found k
                ∙ ap (λ i. at_equal (ops.keycmp k key) d (search_chain ops k (chain_at i cs)))
                    (sym e)
            | inr there ↦
                ap (search_chain ops k) (chain_at-put_chain slot hk made cs slot-lt ∙ rw there refl)
                ∙ elsewhere d k there
          ]
        where
          elsewhere :
              (d : Option D) (k : K)
              → (ops.hash_value size k == slot) ≡ false
              → lookup cs k ≡ at_equal (ops.keycmp k key) d (lookup cs k)
          elsewhere d k there = elim (sign_case (ops.keycmp k key)) [
            | is_less h ↦ rw h refl
            | is_greater h ↦ rw h refl
            | is_equal h ↦
                let same = ap (ops.hash_value size) ((laws.cmp_equal k key).0 h) in
                let bad = sym there ∙ (==_iff _ slot).1 same in cc
          ]

  -- an entry placed in the array
  pub place-InOrder :
      (laws : KeyLaws ops) (e : Entry K D) (cs : List (List (Entry K D)))
      → InOrder cs
      → lookup cs e.key ≡ none
      → InOrder (place ops size e cs)
        × ((k : K)
            → lookup (place ops size e cs) k
              ≡ at_equal (ops.keycmp k e.key) (some e.datum) (lookup cs k))
  unfolding place
  place-InOrder laws e cs v gone =
      let hvalue = ops.hash_value size e.key in
      let i =
        insert_sorted-Inserted ops laws (λ k. ops.hash_value size k ≡ hvalue) e (chain_at hvalue cs)
          (v.sorted hvalue) gone in
      (
        put-InOrder laws e.key cs v _ (i.sorted (v.sorted hvalue)) (i.all refl (v.hashed hvalue)),
        put_lookup laws e.key cs v _ (some e.datum) i.found,
      )
