-- ===== src/Hashtab/Chain/Remove.antt =====
-- The removal from one chain of the hash table.
use ap_policy.Common.{◌≡◌, refl, sym, ap, subst, ◌∙◌, some, none, List, [], ◌∷◌}
use ap_policy.Hashtab.{less, equal, greater, KeyOps, KeyLaws, Entry, remove_chain, search_chain}
use ap_policy.Hashtab.Chain.{
  is_less, is_equal, is_greater, sign_case, at_equal, none-ne-some, Above, IsSorted, All,
  search_chain-Above, Above-trans,
}

module _ {K D : Type 0} (ops : KeyOps K) where
  -- what a removal leaves in the chain
  pub record Removed (P : K → Type 0) (key : K) (chain left : List (Entry K D)) : Type 0 where
    pub sorted : IsSorted ops left
    pub above : (k : K) → Above ops k chain → Above ops k left
    pub all : All ops P chain → All ops P left
    pub found :
        (k : K)
        → search_chain ops k left ≡ at_equal (ops.keycmp k key) none (search_chain ops k chain)

  module _ (laws : KeyLaws ops) (P : K → Type 0) where
    head-Removed :
        (key : K) (cur : Entry K D) (rest : List (Entry K D))
        → ops.keycmp key cur.key ≡ equal
        → Above ops cur.key rest
        → IsSorted ops rest
        → Removed P key (cur ∷ rest) rest
    head-Removed key cur rest e a s = record {
      sorted = s;
      above = λ k b. b.1;
      all = λ b. b.1;
      found = λ k. head_found k;
    }
      where
        head_found :
            (k : K)
            → search_chain ops k rest
              ≡ at_equal (ops.keycmp k key) none (search_chain ops k (cur ∷ rest))
        head_found k =
            let same : ops.keycmp k key ≡ ops.keycmp k cur.key =
              ap (ops.keycmp k) ((laws.cmp_equal key cur.key).0 e) in
            unfold search_chain in
            elim (sign_case (ops.keycmp k cur.key)) [
              | is_less h ↦
                  rw (same, h, search_chain)
                    (search_chain-Above ops k rest (Above-trans ops k cur.key rest laws h a))
              | is_equal h ↦
                  let here = (laws.cmp_equal k cur.key).0 h in
                  rw (same, h, search_chain)
                    (search_chain-Above ops k rest (subst (λ x. Above ops x rest) (sym here) a))
              | is_greater h ↦ rw (same, h, search_chain) refl
            ]

    tail_found :
        (key : K) (cur : Entry K D) (rest left : List (Entry K D)) (k : K)
        → ops.keycmp key cur.key ≡ greater
        → search_chain ops k left ≡ at_equal (ops.keycmp k key) none (search_chain ops k rest)
        → search_chain ops k (cur ∷ left)
          ≡ at_equal (ops.keycmp k key) none (search_chain ops k (cur ∷ rest))
    unfolding search_chain
    tail_found key cur rest left k on ih =
        let back : ops.keycmp cur.key key ≡ less = (laws.cmp_less cur.key key).1 on in
        elim (sign_case (ops.keycmp k cur.key)) [
          | is_less h ↦
              let below = laws.cmp_trans k cur.key key h back in rw (h, below, search_chain) refl
          | is_equal h ↦
              let same = (laws.cmp_equal k cur.key).0 h in
              let below : ops.keycmp k key ≡ less = ap (λ x. ops.keycmp x key) same ∙ back in
              rw (h, below, search_chain) refl
          | is_greater h ↦ rw (h, search_chain) ih
        ]

    same_entry :
        (cur : Entry K D) (key : K) (d : D)
        → cur.key ≡ key
        → cur.datum ≡ d
        → cur ≡ record { key = key; datum = d }
    same_entry cur key d p q = λ i. record { key = p i; datum = q i }

    some-injective : {x y : D} → some x ≡ some y → x ≡ y
    some-injective e = cc

    -- the removal succeeds where the search finds the key
    pub remove_chain-Removed :
        (key : K) (d : D) (chain : List (Entry K D))
        → IsSorted ops chain
        → search_chain ops key chain ≡ some d
        → (left : List (Entry K D)) × (remove_chain ops key chain
            ≡ some (record { key = key; datum = d }, left))
          × Removed P key chain left
    unfolding remove_chain search_chain
    remove_chain-Removed key d [] s h = absurd (none-ne-some h)
    remove_chain-Removed key d (cur ∷ rest) s h = elim (sign_case (ops.keycmp key cur.key)) [
      | is_less e ↦ absurd (none-ne-some (rw (e, search_chain) at h))
      | is_equal e ↦ (
        rest,
        rw (e, remove_chain)
            (ap (λ old. some (old, rest))
              (same_entry cur key d (sym ((laws.cmp_equal key cur.key).0 e))
                (some-injective (rw (e, search_chain) at h)))),
        head-Removed key cur rest e s.0 s.1,
      )
      | is_greater e ↦
          let (left, run, r) = remove_chain-Removed key d rest s.1 (rw (e, search_chain) at h) in
          (
            cur ∷ left,
            rw (e, remove_chain, run) refl,
            record {
              sorted = (r.above cur.key s.0, r.sorted);
              above = λ k b. (b.0, r.above k b.1);
              all = λ b. (b.0, r.all b.1);
              found = λ k. tail_found key cur rest left k e (r.found k);
            },
          )
    ]

    pub remove_chain_refuses :
        (key : K) (chain : List (Entry K D))
        → search_chain ops key chain ≡ none
        → remove_chain ops key chain ≡ none
    unfolding remove_chain search_chain
    remove_chain_refuses key [] h = refl
    remove_chain_refuses key (cur ∷ rest) h = elim (sign_case (ops.keycmp key cur.key)) [
      | is_less e ↦ rw (e, remove_chain) refl
      | is_equal e ↦ absurd (none-ne-some (sym (rw (e, search_chain) at h)))
      | is_greater e ↦
          rw (e, remove_chain, remove_chain_refuses key rest (rw (e, search_chain) at h)) refl
    ]
