-- ===== src/Hashtab/Resize.antt =====
-- The move of all entries to twice the slots, `hashtab_check_resize`.
use ap_policy.Common.{
  ℕ, suc, ◌+◌, ◌-◌, ◌<◌, ◌≤◌, ◌≡◌, refl, sym, ap, subst, ◌∙◌, Option, some, none, List, [], ◌∷◌,
  arith, ◌==◌, ==_iff, Bool-cases, Option-cases, ◌⊎◌, inl, inr, ◌≢◌,
}
use ap_policy.Common.Buckets.{chain_at}
use ap_policy.Hashtab.{
  greater, KeyOps, KeyLaws, Entry, place, search_chain, move_chain, move_chains,
}
use ap_policy.Hashtab.Chain.{
  is_less, is_equal, is_greater, sign_case, at_equal, none-ne-some, Above, IsSorted, All,
  search_chain-Above, search_chain-All, Above-trans,
}
use ap_policy.Hashtab.Place.{InOrder, lookup, place-InOrder}

abbrev pub found_or {ℓ} : {A : Type ℓ} → Option A → Option A → Option A
found_or none y = y
found_or (some x) y = some x

pub found_or-none {ℓ} : {A : Type ℓ} (x : Option A) → found_or x none ≡ x
found_or-none none = refl
found_or-none (some x) = refl

zero_gap : (h i : ℕ) → h ≡ i → 0 ≡ h - i
zero_gap h i e = omega arith

suc_gap : (h i : ℕ) → i ≤ h → h ≢ i → suc (h - suc i) ≡ h - i
suc_gap h i le other = omega arith

add_zero : (i : ℕ) → i + 0 ≡ i
add_zero i = omega arith

add_suc : (i j : ℕ) → i + suc j ≡ suc i + j
add_suc i j = omega arith

module _ {K D : Type 0} (ops : KeyOps K) (laws : KeyLaws ops) where
  -- in a chain in order, a key at most the first is not found behind it
  not_behind :
      (k : K) (cur : Entry K D) (rest : List (Entry K D))
      → Above ops cur.key rest
      → (ops.keycmp k cur.key ≡ greater) ⊎ (search_chain ops k rest ≡ none)
  not_behind k cur rest a = elim (sign_case (ops.keycmp k cur.key)) [
    | is_less h ↦ inr (search_chain-Above ops k rest (Above-trans ops k cur.key rest laws h a))
    | is_equal h ↦ inr (
        search_chain-Above ops k rest
          (subst (λ x. Above ops x rest) (sym ((laws.cmp_equal k cur.key).0 h)) a))
    | is_greater h ↦ inl h
  ]

  first_found :
      (cur : Entry K D) (rest : List (Entry K D))
      → search_chain ops cur.key (cur ∷ rest) ≡ some cur.datum
  unfolding search_chain
  first_found cur rest = rw ((laws.cmp_equal cur.key cur.key).1 refl, search_chain) refl

  module _ (size : ℕ) where
    -- one chain moved to an array that has none of its keys
    record Moved (c : List (Entry K D)) (new made : List (List (Entry K D))) : Type 0 where
      in_order : InOrder ops size made
      found :
          (k : K) → lookup ops size made k ≡ found_or (search_chain ops k c) (lookup ops size new k)

    moved_found :
        (cur : Entry K D) (rest : List (Entry K D)) (new : List (List (Entry K D))) (k : K)
        → Above ops cur.key rest
        → found_or
            (search_chain ops k rest)
            (at_equal (ops.keycmp k cur.key) (some cur.datum) (lookup ops size new k))
          ≡ found_or (search_chain ops k (cur ∷ rest)) (lookup ops size new k)
    unfolding search_chain
    moved_found cur rest new k a = elim (not_behind k cur rest a) [
      | inl h ↦ rw (h, search_chain) refl
      | inr gone ↦ elim (sign_case (ops.keycmp k cur.key)) [
        | is_less h ↦ rw (gone, h, search_chain) refl
        | is_equal h ↦ rw (gone, h, search_chain) refl
        | is_greater h ↦ rw (h, search_chain) refl
      ]
    ]

    move_chain-Moved :
        (c : List (Entry K D)) (new : List (List (Entry K D)))
        → IsSorted ops c
        → InOrder ops size new
        → ((k : K) (d : D) → search_chain ops k c ≡ some d → lookup ops size new k ≡ none)
        → Moved c new (move_chain ops size c new)
    unfolding move_chain search_chain
    move_chain-Moved [] new s v apart = record { in_order = v; found = λ k. refl }
    move_chain-Moved (cur ∷ rest) new s v apart =
        let (v1, found1) =
          place-InOrder ops size laws cur new v (apart cur.key cur.datum (first_found cur rest)) in
        let m =
          move_chain-Moved rest (place ops size cur new) s.1 v1
            (λ k d h. still_apart found1 k d h) in
        record {
          in_order = m.in_order;
          found = λ k.
              m.found k
              ∙ ap (found_or (search_chain ops k rest)) (found1 k)
              ∙ moved_found cur rest new k s.0;
        }
      where
        still_apart :
            ((k : K)
              → lookup ops size (place ops size cur new) k
                ≡ at_equal (ops.keycmp k cur.key) (some cur.datum) (lookup ops size new k))
            → (k : K) (d : D) → search_chain ops k rest ≡ some d
            → lookup ops size (place ops size cur new) k ≡ none
        still_apart found1 k d h = elim (not_behind k cur rest s.0) [
          | inl on ↦ found1 k ∙ rw on (apart k d (rw (on, search_chain) h))
          | inr gone ↦ absurd (none-ne-some (sym gone ∙ h))
        ]

    -- chains whose keys have the hash values from i on, moved to an array without such keys
    module _ (old_hash : K → ℕ) where
      pub record Rest (i : ℕ) (cs new made : List (List (Entry K D))) : Type 0 where
        pub in_order : InOrder ops size made
        pub from :
            (k : K)
            → i ≤ old_hash k
            → lookup ops size made k ≡ search_chain ops k (chain_at (old_hash k - i) cs)
        pub before : (k : K) → old_hash k < i → lookup ops size made k ≡ lookup ops size new k

      elsewhere :
          (i : ℕ) (c : List (Entry K D)) (k : K)
          → All ops (λ x. old_hash x ≡ i) c
          → old_hash k ≢ i
          → search_chain ops k c ≡ none
      elsewhere i c k a other = elim (Option-cases (search_chain ops k c)) [
        | inl gone ↦ gone
        | inr (d, there) ↦
            absurd (other (search_chain-All ops (λ x. old_hash x ≡ i) k d c laws a there))
      ]

      first-Moved :
          (i : ℕ) (c : List (Entry K D)) (new : List (List (Entry K D)))
          → IsSorted ops c
          → All ops (λ k. old_hash k ≡ i) c
          → InOrder ops size new
          → ((k : K) → i ≤ old_hash k → lookup ops size new k ≡ none)
          → Moved c new (move_chain ops size c new)
      first-Moved i c new s a v apart = move_chain-Moved c new s v (λ k d h.
          apart k (omega (arith, search_chain-All ops (λ x. old_hash x ≡ i) k d c laws a h)))

      -- the rest of the chains after the first
      Rest-Moved :
          (i : ℕ) (c : List (Entry K D)) (cs new mid made : List (List (Entry K D)))
          → All ops (λ k. old_hash k ≡ i) c
          → ((k : K) → i ≤ old_hash k → lookup ops size new k ≡ none)
          → Moved c new mid
          → Rest (suc i) cs mid made
          → Rest i (c ∷ cs) new made
      unfolding chain_at
      Rest-Moved i c cs new mid made a apart m r = record {
        in_order = r.in_order;
        from = λ k h. elim (Bool-cases (old_hash k == i)) [
          | inl here ↦ at_first k ((==_iff (old_hash k) i).0 here)
          | inr there ↦ behind k h (λ e. let bad = sym there ∙ (==_iff (old_hash k) i).1 e in cc)
        ];
        before = λ k h.
            r.before k (omega arith)
            ∙ m.found k
            ∙ ap (λ x. found_or x (lookup ops size new k)) (elsewhere i c k a (λ e. omega arith));
      }
        where
          at_first :
              (k : K)
              → old_hash k ≡ i
              → lookup ops size made k ≡ search_chain ops k (chain_at (old_hash k - i) (c ∷ cs))
          at_first k e =
              r.before k (omega arith)
              ∙ m.found k
              ∙ ap (found_or (search_chain ops k c)) (apart k (omega arith))
              ∙ found_or-none (search_chain ops k c)
              ∙ ap (λ n. search_chain ops k (chain_at n (c ∷ cs))) (zero_gap (old_hash k) i e)

          behind :
              (k : K)
              → i ≤ old_hash k
              → old_hash k ≢ i
              → lookup ops size made k ≡ search_chain ops k (chain_at (old_hash k - i) (c ∷ cs))
          behind k h other =
              r.from k (omega arith)
              ∙ ap (λ n. search_chain ops k (chain_at n (c ∷ cs))) (suc_gap (old_hash k) i h other)

      pub move_chains-Rest :
          (i : ℕ) (cs new : List (List (Entry K D)))
          → ((j : ℕ) → IsSorted ops (chain_at j cs))
          → ((j : ℕ) → All ops (λ k. old_hash k ≡ i + j) (chain_at j cs))
          → InOrder ops size new
          → ((k : K) → i ≤ old_hash k → lookup ops size new k ≡ none)
          → Rest i cs new (move_chains ops size cs new)
      unfolding move_chains chain_at
      move_chains-Rest i [] new s a v apart = record {
        in_order = v;
        from = λ k h. apart k h ∙ (unfold search_chain in refl);
        before = λ k h. refl;
      }
      move_chains-Rest i (c ∷ cs) new s a v apart =
          let here : All ops (λ k. old_hash k ≡ i) c =
            subst (λ n. All ops (λ k. old_hash k ≡ n) c) (add_zero i) (a 0) in
          let m = first-Moved i c new (s 0) here v apart in
          Rest-Moved i c cs new _ _ here apart m (
            move_chains-Rest (suc i) cs (move_chain ops size c new) (λ j. s (suc j))
              (λ j.
                subst (λ n. All ops (λ k. old_hash k ≡ n) (chain_at j cs)) (add_suc i j)
                  (a (suc j)))
              m.in_order
              (λ k h.
                m.found k
                ∙ ap (λ x. found_or x (lookup ops size new k))
                    (elsewhere i c k here (λ e. omega arith))
                ∙ apart k (omega arith)))
