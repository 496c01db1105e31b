-- ===== src/Hashtab/Chain.antt =====
-- One chain of the hash table: its order, the search and the insertion.
pub mod Remove
use ap_policy.Common.{
  ◌≡◌, ◌≢◌, ◌⊎◌, refl, sym, ap, subst, ◌∙◌, Option, some, none, List, [], ◌∷◌, inl, inr, arith,
  Option-cases,
}
use ap_policy.Hashtab.{
  Sign, less, equal, greater, KeyOps, KeyLaws, Entry, insert_sorted, insert_chain, remove_chain,
  search_chain,
}

pub data SignCase (s : Sign) : Type 0 where
  is_less : s ≡ less → SignCase s
  is_equal : s ≡ equal → SignCase s
  is_greater : s ≡ greater → SignCase s

pub sign_case : (s : Sign) → SignCase s
sign_case less = is_less refl
sign_case equal = is_equal refl
sign_case greater = is_greater refl

-- one value at equal keys, another elsewhere
abbrev pub at_equal {ℓ} : {A : Type ℓ} → Sign → A → A → A
at_equal less x y = y
at_equal equal x y = x
at_equal greater x y = y

abbrev pub unless_found {ℓ κ} : {A : Type ℓ} {B : Type κ} → Option A → B → Option B
unless_found none b = some b
unless_found (some a) b = none

pub none-ne-some {ℓ} : {A : Type ℓ} {a : A} → none ≢ some a
none-ne-some h = cc

module _ {K D : Type 0} (ops : KeyOps K) where
  -- every key of the chain is larger
  abbrev pub Above : K → List (Entry K D) → Type 0
  Above key [] = Unit {0}
  Above key (cur ∷ rest) = (ops.keycmp key cur.key ≡ less) × Above key rest

  abbrev pub IsSorted : List (Entry K D) → Type 0
  IsSorted [] = Unit {0}
  IsSorted (cur ∷ rest) = Above cur.key rest × IsSorted rest

  abbrev pub All : (K → Type 0) → List (Entry K D) → Type 0
  All P [] = Unit {0}
  All P (cur ∷ rest) = P cur.key × All P rest

  pub search_chain-Above :
      (key : K) (chain : List (Entry K D)) → Above key chain → search_chain ops key chain ≡ none
  unfolding search_chain
  search_chain-Above key [] a = refl
  search_chain-Above key (cur ∷ rest) a = rw (a.0, search_chain) refl

  -- what holds of all keys holds of one that is found
  pub search_chain-All :
      (P : K → Type 0) (key : K) (d : D) (chain : List (Entry K D))
      → KeyLaws ops
      → All P chain
      → search_chain ops key chain ≡ some d
      → P key
  unfolding search_chain
  search_chain-All P key d [] laws a h = cc h
  search_chain-All P key d (cur ∷ rest) laws a h = elim (sign_case (ops.keycmp key cur.key)) [
    | is_less e ↦ let bad = rw (e, search_chain) at h in cc
    | is_equal e ↦ subst P (sym ((laws.cmp_equal key cur.key).0 e)) a.0
    | is_greater e ↦ search_chain-All P key d rest laws a.1 (rw (e, search_chain) at h)
  ]

  pub Above-trans :
      (a b : K) (chain : List (Entry K D))
      → KeyLaws ops
      → ops.keycmp a b ≡ less
      → Above b chain
      → Above a chain
  Above-trans a b [] laws h above = tt
  Above-trans a b (cur ∷ rest) laws h above =
      (laws.cmp_trans a b cur.key h above.0, Above-trans a b rest laws h above.1)

  -- what an insertion leaves in the chain
  pub record Inserted (P : K → Type 0) (e : Entry K D) (chain made : List (Entry K D))
      : Type 0 where
    pub sorted : IsSorted chain → IsSorted made
    pub above : (k : K) → ops.keycmp k e.key ≡ less → Above k chain → Above k made
    pub all : P e.key → All P chain → All P made
    pub found :
        (k : K)
        → search_chain ops k made
          ≡ at_equal (ops.keycmp k e.key) (some e.datum) (search_chain ops k chain)

  module _ (laws : KeyLaws ops) (P : K → Type 0) where
    front-Inserted :
        (e : Entry K D) (chain : List (Entry K D))
        → Above e.key chain
        → Inserted P e chain (e ∷ chain)
    front-Inserted e chain a = record {
      sorted = λ s. (a, s);
      above = λ k h b. (h, b);
      all = λ p b. (p, b);
      found = λ k. front_found k;
    }
      where
        front_found :
            (k : K)
            → search_chain ops k (e ∷ chain)
              ≡ at_equal (ops.keycmp k e.key) (some e.datum) (search_chain ops k chain)
        front_found k =
            unfold search_chain in
            elim (sign_case (ops.keycmp k e.key)) [
              | is_less h ↦
                  rw (h, search_chain)
                    (sym (search_chain-Above k chain (Above-trans k e.key chain laws h a)))
              | is_equal h ↦ rw (h, search_chain) refl
              | is_greater h ↦ rw (h, search_chain) refl
            ]

    behind_found :
        (e cur : Entry K D) (rest made : List (Entry K D)) (k : K)
        → ops.keycmp e.key cur.key ≡ greater
        → search_chain ops k made
          ≡ at_equal (ops.keycmp k e.key) (some e.datum) (search_chain ops k rest)
        → search_chain ops k (cur ∷ made)
          ≡ at_equal (ops.keycmp k e.key) (some e.datum) (search_chain ops k (cur ∷ rest))
    unfolding search_chain
    behind_found e cur rest made k on ih =
        let back : ops.keycmp cur.key e.key ≡ less = (laws.cmp_less cur.key e.key).1 on in
        elim (sign_case (ops.keycmp k cur.key)) [
          | is_less h ↦
              let below = laws.cmp_trans k cur.key e.key h back in rw (h, below, search_chain) refl
          | is_equal h ↦
              let same = (laws.cmp_equal k cur.key).0 h in
              let below : ops.keycmp k e.key ≡ less = ap (λ x. ops.keycmp x e.key) same ∙ back in
              rw (h, below, search_chain) refl
          | is_greater h ↦ rw (h, search_chain) ih
        ]

    behind-Inserted :
        (e cur : Entry K D) (rest made : List (Entry K D))
        → ops.keycmp e.key cur.key ≡ greater
        → Inserted P e rest made
        → Inserted P e (cur ∷ rest) (cur ∷ made)
    behind-Inserted e cur rest made on i = record {
      sorted = λ s. (i.above cur.key ((laws.cmp_less cur.key e.key).1 on) s.0, i.sorted s.1);
      above = λ k h b. (b.0, i.above k h b.1);
      all = λ p b. (b.0, i.all p b.1);
      found = λ k. behind_found e cur rest made k on (i.found k);
    }

    -- the place found for an entry whose key is not there
    pub insert_sorted-Inserted :
        (e : Entry K D) (chain : List (Entry K D))
        → IsSorted chain
        → search_chain ops e.key chain ≡ none
        → Inserted P e chain (insert_sorted ops e chain)
    unfolding insert_sorted search_chain
    insert_sorted-Inserted e [] s h = front-Inserted e [] tt
    insert_sorted-Inserted e (cur ∷ rest) s h = elim (sign_case (ops.keycmp e.key cur.key)) [
      | is_less c ↦
          rw (c, insert_sorted)
            (front-Inserted e (cur ∷ rest) (c, Above-trans e.key cur.key rest laws c s.0))
      | is_equal c ↦ let bad = rw (c, search_chain) at h in cc
      | is_greater c ↦
          rw (c, insert_sorted)
            (behind-Inserted e cur rest _ c
              (insert_sorted-Inserted e rest s.1 (rw (c, search_chain) at h)))
    ]

  -- `hashtab_insert` refuses a key that the search finds, and else finds the same place as the moving
  pub insert_chain-search_chain :
      (e : Entry K D) (chain : List (Entry K D))
      → insert_chain ops e chain
        ≡ unless_found (search_chain ops e.key chain) (insert_sorted ops e chain)
  unfolding insert_chain search_chain insert_sorted
  insert_chain-search_chain e [] = refl
  insert_chain-search_chain e (cur ∷ rest) = elim (sign_case (ops.keycmp e.key cur.key)) [
    | is_less c ↦ rw (c, insert_chain, search_chain, insert_sorted) refl
    | is_equal c ↦ rw (c, insert_chain, search_chain, insert_sorted) refl
    | is_greater c ↦
        rw (c, insert_chain, search_chain, insert_sorted, insert_chain-search_chain e rest)
          (elim (Option-cases (search_chain ops e.key rest)) [
            | inl gone ↦ rw (gone, unless_found) refl
            | inr (d, there) ↦ rw (there, unless_found) refl
          ])
  ]
