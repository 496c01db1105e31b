-- ===== src/Conditional/Rules/Order.antt =====
-- The order that `cond_optimize` leaves.
use ap_policy.Common.{
  ℕ, ◌≡◌, refl, ap, ◌∙◌, List, [], ◌∷◌, ◌++◌, Bool-cases, inl, inr, if◌then◌else◌,
}
use mathlib.Core.List.{append_assoc, append-nil}
use ap_policy.Conditional.Rules.{Specified, is_type, optimize_loop, optimize}

-- the type rules, the last one first, in front of `made`
pub types_onto : Specified → List ℕ → List ℕ → List ℕ
types_onto sp [] made = made
types_onto sp (a ∷ rest) made =
    if is_type sp a then types_onto sp rest (a ∷ made) else types_onto sp rest made

-- the other rules
pub others : Specified → List ℕ → List ℕ
others sp [] = []
others sp (a ∷ rest) = if is_type sp a then others sp rest else a ∷ others sp rest

optimize_loop-append :
    (sp : Specified) (types kept rest : List ℕ)
    → optimize_loop sp (types ++ kept) rest ≡ types_onto sp rest types ++ (kept ++ others sp rest)
unfolding optimize_loop types_onto others
optimize_loop-append sp types kept [] = rw append-nil refl
optimize_loop-append sp [] [] (cur ∷ rest) = elim (Bool-cases (is_type sp cur)) [
  | inl moves ↦ rw moves (optimize_loop-append sp (cur ∷ []) [] rest)
  | inr stays ↦ rw stays (optimize_loop-append sp [] (cur ∷ []) rest)
]
optimize_loop-append sp [] (k ∷ kept) (cur ∷ rest) = elim (Bool-cases (is_type sp cur)) [
  | inl moves ↦ rw (moves, optimize_loop) (optimize_loop-append sp (cur ∷ []) (k ∷ kept) rest)
  | inr stays ↦
      rw (stays, optimize_loop)
        (optimize_loop-append sp [] (k ∷ kept ++ (cur ∷ [])) rest
          ∙ ap (λ l. types_onto sp rest [] ++ (k ∷ l))
              (append_assoc kept (cur ∷ []) (others sp rest)))
]
optimize_loop-append sp (t ∷ types) kept (cur ∷ rest) = elim (Bool-cases (is_type sp cur)) [
  | inl moves ↦ rw (moves, optimize_loop) (optimize_loop-append sp (cur ∷ t ∷ types) kept rest)
  | inr stays ↦
      rw (stays, optimize_loop)
        (ap (λ l. optimize_loop sp (t ∷ l) rest) (append_assoc types kept (cur ∷ []))
          ∙ optimize_loop-append sp (t ∷ types) (kept ++ (cur ∷ [])) rest
          ∙ ap (λ l. types_onto sp rest (t ∷ types) ++ l)
              (append_assoc kept (cur ∷ []) (others sp rest)))
]

-- `cond_optimize` puts the type rules in front, the last one first, and keeps all other rules behind
-- them in their order.
pub optimize-types_onto :
    (sp : Specified) (l : List ℕ) → optimize sp l ≡ types_onto sp l [] ++ others sp l
unfolding optimize
optimize-types_onto sp l = optimize_loop-append sp [] [] l
