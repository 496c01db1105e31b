-- ===== src/Mls/Order.antt =====
-- The order of well-formed levels: what `mls_level_dom`, `mls_level_eq`, `mls_level_incomp` and
-- `mls_range_contains` say of sensitivities and categories.
use ap_policy.Common.{ℕ, ◌≤◌, ◌≡◌, true, false, arith, ◌↔◌, eq_of_iff, subst, Bool-cases, inl, inr}
use ap_policy.Ebitmap.{get_bit}
use ap_policy.Ebitmap.Compare.Extensional.{ebitmap_ext, cmp_refl, eq_of_cmp}
use ap_policy.Ebitmap.Compare.Subset.{contains_iff}
use ap_policy.Ebitmap.Shape
use ap_policy.Mls.{Level, level, Range, level_eq, level_dom, level_incomp, range_contains}

-- a level whose category set is well formed, and a range of two such
abbrev pub IsLevel : Level → Type 0
IsLevel l = Shape.IsValid l.cat

abbrev pub IsRange : Range → Type 0
IsRange r = IsLevel r.low × IsLevel r.high

-- a sensitivity as high, and every category
abbrev pub AtLeast : Level → Level → Type 0
AtLeast l1 l2 = (l2.sens ≤ l1.sens) × ((i : ℕ) → get_bit l2.cat i ≡ true → get_bit l1.cat i ≡ true)

-- a level from the low to the high one of a range
abbrev pub InRange : Range → Level → Type 0
InRange r l = AtLeast l r.low × AtLeast r.high l

pub level_dom_iff :
    (l1 l2 : Level) → IsLevel l1 → IsLevel l2 → (level_dom l1 l2 ≡ true) ↔ AtLeast l1 l2
unfolding level_dom
level_dom_iff l1 l2 v1 v2 =
    let cats = contains_iff l1.cat l2.cat v1 v2 in
    (
      λ h. (ground arith, cats.0 (ground arith)),
      λ d. let included = cats.1 d.1 in let high = d.0 in ground arith,
    )

AtLeast-refl : (l : Level) → AtLeast l l
AtLeast-refl l = (omega arith, λ i h. h)

AtLeast-trans : (a b c : Level) → AtLeast a b → AtLeast b c → AtLeast a c
AtLeast-trans a b c p q = (omega (arith, p.0, q.0), λ i s. p.1 i (q.1 i s))

pub level_dom_refl : (l : Level) → IsLevel l → level_dom l l ≡ true
level_dom_refl l v = (level_dom_iff l l v v).1 (AtLeast-refl l)

pub level_dom_trans :
    (a b c : Level)
    → IsLevel a
    → IsLevel b
    → IsLevel c
    → level_dom a b ≡ true
    → level_dom b c ≡ true
    → level_dom a c ≡ true
level_dom_trans a b c va vb vc h k =
    (level_dom_iff a c va vc).1
      (AtLeast-trans a b c ((level_dom_iff a b va vb).0 h) ((level_dom_iff b c vb vc).0 k))

pub level_dom_antisymm :
    (a b : Level) → IsLevel a → IsLevel b → level_dom a b ≡ true → level_dom b a ≡ true → a ≡ b
level_dom_antisymm a b va vb h k =
    let p = (level_dom_iff a b va vb).0 h in
    let q = (level_dom_iff b a vb va).0 k in
    let sens : a.sens ≡ b.sens = omega (arith, p.0, q.0) in
    let cat =
      ebitmap_ext a.cat b.cat va vb
        λ i. eq_of_iff (get_bit a.cat i) (get_bit b.cat i) (q.1 i) (p.1 i) in
    λ i. level (sens i) (cat i)

-- `mls_level_eq` is true exactly of equal levels
pub level_eq_iff : (a b : Level) → (level_eq a b ≡ true) ↔ (a ≡ b)
unfolding level_eq
level_eq_iff a b = (
  λ h.
      let sens : a.sens ≡ b.sens = ground arith in
      let cat = eq_of_cmp a.cat b.cat (ground arith) in λ i. level (sens i) (cat i),
  λ e. rw e (ground (arith, cmp_refl b.cat)),
)

-- a range lies within another when its ends do
pub range_contains_trans :
    (a b c : Range)
    → IsRange a
    → IsRange b
    → IsRange c
    → range_contains a b ≡ true
    → range_contains b c ≡ true
    → range_contains a c ≡ true
unfolding range_contains
range_contains_trans a b c va vb vc h k = ground (
  arith,
  level_dom_trans c.low b.low a.low vc.0 vb.0 va.0,
  level_dom_trans a.high b.high c.high va.1 vb.1 vc.1,
)

-- `mls_level_dom`, `mls_level_eq` and `mls_level_incomp` on two levels with well-formed category sets: the
-- first level dominates the second exactly when its sensitivity is as high and it has every category of
-- the second, the levels are equal exactly when each is at least the other in this sense, and they are
-- incomparable exactly when neither is.
pub level_compare_iff :
    (l1 l2 : Level)
    → IsLevel l1
    → IsLevel l2
    → ((level_dom l1 l2 ≡ true) ↔ AtLeast l1 l2)
      × ((level_eq l1 l2 ≡ true) ↔ (AtLeast l1 l2 × AtLeast l2 l1))
      × ((level_incomp l1 l2 ≡ true) ↔ (¬ AtLeast l1 l2 × ¬ AtLeast l2 l1))
unfolding level_incomp
level_compare_iff l1 l2 v1 v2 =
    let up = level_dom_iff l1 l2 v1 v2 in
    let down = level_dom_iff l2 l1 v2 v1 in
    (
      up,
      (
        λ h. (up.0 (dom_of_eq h), down.0 (dom_of_eq' h)),
        λ d. (level_eq_iff l1 l2).1 (level_dom_antisymm l1 l2 v1 v2 (up.1 d.0) (down.1 d.1)),
      ),
      (
        λ h. (λ d. ground (arith, up.1 d), λ d. ground (arith, down.1 d)),
        λ d. ground (arith, not_dom l1 l2 (λ h. d.0 (up.0 h)), not_dom l2 l1 (λ h. d.1 (down.0 h))),
      ),
    )
  where
    dom_of_eq : level_eq l1 l2 ≡ true → level_dom l1 l2 ≡ true
    dom_of_eq h =
        subst (λ l. level_dom l1 l ≡ true) ((level_eq_iff l1 l2).0 h) (level_dom_refl l1 v1)

    dom_of_eq' : level_eq l1 l2 ≡ true → level_dom l2 l1 ≡ true
    dom_of_eq' h =
        subst (λ l. level_dom l l1 ≡ true) ((level_eq_iff l1 l2).0 h) (level_dom_refl l1 v1)

    not_dom : (a b : Level) → ¬ (level_dom a b ≡ true) → level_dom a b ≡ false
    not_dom a b h = elim (Bool-cases (level_dom a b)) [
      | inl above ↦ absurd (h above)
      | inr below ↦ below
    ]

-- `mls_range_contains` on two ranges with well-formed category sets, the second with a high level that is
-- at least its low one: it is true exactly when every level with a well-formed set that lies in the second
-- range lies in the first.
pub range_contains_iff :
    (a b : Range)
    → IsRange a
    → IsRange b
    → AtLeast b.high b.low
    → (range_contains a b ≡ true) ↔ ((l : Level) → IsLevel l → InRange b l → InRange a l)
unfolding range_contains
range_contains_iff a b va vb ordered =
    let low = level_dom_iff b.low a.low vb.0 va.0 in
    let high = level_dom_iff a.high b.high va.1 vb.1 in
    (
      λ h l v m. (
        AtLeast-trans l b.low a.low m.0 (low.0 (ground arith)),
        AtLeast-trans a.high b.high l (high.0 (ground arith)) m.1,
      ),
      λ f.
          let lowest = f b.low vb.0 (AtLeast-refl b.low, ordered) in
          let highest = f b.high vb.1 (ordered, AtLeast-refl b.high) in
          ground (arith, low.1 lowest.0, high.1 highest.1),
    )
