-- ===== src/Security/Validity/Levels.antt =====
-- A level is valid when its sensitivity may have its categories.
use ap_policy.Common.{
  ℕ, suc, ◌≤◌, ◌≡◌, ◌↔◌, refl, sym, ◌∙◌, Bool, true, false, some, List, [], ◌∷◌, arith, ltb, ◌==◌,
  ◌||◌, inl, inr, Bool-cases, Option-cases,
}
use ap_policy.Ebitmap.{Ebitmap, get_bit}
use ap_policy.Ebitmap.Shape.{IsValid}
use ap_policy.Ebitmap.Walk.Bits.{occurs, for_each_positive_bit-bits}
use ap_policy.Mls.{Level}
use ap_policy.Security.Validity.{Policy, cats_allowed, level_is_valid}

-- a sensitivity of the policy, with categories that it may have
pub record IsLevelOf (p : Policy) (l : Level) : Type 0 where
  pub sens_pos : 1 ≤ l.sens
  pub sens_le : l.sens ≤ p.levels_nprim
  pub cats :
      (allowed : Ebitmap) × (p.level_cats l.sens ≡ some allowed)
      × ((i : ℕ) → get_bit l.cat i ≡ true → (i ≤ p.cats_nprim) × (get_bit allowed i ≡ true))

cats_allowed_iff :
    (p : Policy) (allowed : Ebitmap) (is : List ℕ)
    → (cats_allowed p allowed is ≡ true)
      ↔ ((i : ℕ) → occurs i is ≡ true → (i ≤ p.cats_nprim) × (get_bit allowed i ≡ true))
unfolding cats_allowed
cats_allowed_iff p allowed [] = (λ h i o. cc, λ f. refl)
cats_allowed_iff p allowed (x ∷ is) = (
  λ h i o. elim (Bool-cases (i == x)) [
    | inl same ↦ let e : i ≡ x = ground arith in rw e (ground arith, ground arith)
    | inr differs ↦ (cats_allowed_iff p allowed is).0 (ground arith) i (ground arith)
  ],
  λ f.
      let self : (x == x) ≡ true = ground arith in
      let (le, set) = f x (rw self refl) in
      let rest = (cats_allowed_iff p allowed is).1 (λ i o. f i (ground (arith, o))) in ground arith,
)

pub level_is_valid_iff :
    (p : Policy) (l : Level)
    → IsValid l.cat
    → (b : Bool) × (level_is_valid p l ≡ some b) × ((b ≡ true) ↔ IsLevelOf p l)
unfolding level_is_valid
level_is_valid_iff p l v = elim (Bool-cases (l.sens == 0 || ltb p.levels_nprim l.sens)) [
  | inl out ↦ (false, rw (out) refl, (λ h. cc, λ w. absurd (ground (arith, w.sens_pos, w.sens_le))))
  | inr known ↦ elim (Option-cases (p.level_cats l.sens)) [
    | inl none_of ↦ (false, rw (known, none_of) refl, (λ h. cc, λ w. cc (w.cats.1, none_of)))
    | inr (allowed, e) ↦
        let (is, run, _, bits) =
          for_each_positive_bit-bits (suc l.cat.highbit) l.cat v (omega arith) in
        let cats = cats_allowed_iff p allowed is in
        (
          cats_allowed p allowed is,
          rw (known, e, run) refl,
          (
            λ h. record {
              sens_pos = ground arith;
              sens_le = ground arith;
              cats = (allowed, e, λ i b. cats.0 h i (bits i ∙ b));
            },
            λ w.
                let same : w.cats.0 ≡ allowed = cc (w.cats.1, e) in
                cats.1
                  (λ i o. let (le, set) = w.cats.2 i (sym (bits i) ∙ o) in (le, rw (← same) set)),
          ),
        )
  ]
]
