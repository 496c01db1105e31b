-- ===== src/Mls/Glblub.antt =====
-- `mls_range_glblub`: when two ranges meet, and what the range computed is.
use ap_policy.Common.{ℕ, ◌≤◌, ◌<◌, ◌≡◌, refl, true, false, arith, ltb, ◌&&◌, ◌↔◌, ◌⊎◌, max, min}
use ap_policy.Common.Results.{ok, err, einval, Returns}
use ap_policy.Ebitmap
use ap_policy.Ebitmap.{get_bit}
use ap_policy.Ebitmap.Intersection.{and-bits}
use ap_policy.Mls.{Level, level, Range, levels, level_dom, range_glblub}
use ap_policy.Mls.Order.{IsLevel, IsRange, level_dom_iff}

-- `mls_range_glblub` refuses two ranges exactly when one ends at a sensitivity below the other's
-- start.
pub range_glblub-refuses :
    (r1 r2 : Range)
    → (range_glblub r1 r2 ≡ err einval)
      ↔ ((r1.high.sens < r2.low.sens) ⊎ (r2.high.sens < r1.low.sens))
unfolding range_glblub
range_glblub-refuses r1 r2 = (λ h. ground arith, λ h. ground arith)

-- the greatest level that two levels dominate
meet : Level → Level → Level
meet a b = level (min a.sens b.sens) (Ebitmap.and a.cat b.cat)

module _ (a b : Level) (va : IsLevel a) (vb : IsLevel b) where
  meet-IsLevel : IsLevel (meet a b)
  unfolding meet
  meet-IsLevel = (and-bits a.cat b.cat va vb).0

  meet-greatest :
      (level_dom a (meet a b) ≡ true)
      × (level_dom b (meet a b) ≡ true)
      × ((l : Level)
          → IsLevel l
          → level_dom a l ≡ true
          → level_dom b l ≡ true
          → level_dom (meet a b) l ≡ true)
  meet-greatest =
      let (valid, bits) = and-bits a.cat b.cat va vb in
      (
        (level_dom_iff a (meet a b) va meet-IsLevel).1
            (unfold meet in (omega arith, λ i h. ground (arith, bits i))),
        (level_dom_iff b (meet a b) vb meet-IsLevel).1
            (unfold meet in (omega arith, λ i h. ground (arith, bits i))),
        λ l vl da db.
            let p = (level_dom_iff a l va vl).0 da in
            let q = (level_dom_iff b l vb vl).0 db in
            (level_dom_iff (meet a b) l meet-IsLevel vl).1 (
              unfold meet in
              (omega (arith, p.0, q.0), λ i h. ground (arith, bits i, p.1 i h, q.1 i h))),
      )

-- what a successful call returns: the high level is the greatest lower bound of the two high levels,
-- and the range is in order when both arguments are
pub record Combines (r1 r2 r : Range) : Type 0 where
  pub valid : IsRange r
  pub below_first : level_dom r1.high r.high ≡ true
  pub below_second : level_dom r2.high r.high ≡ true
  pub greatest :
      (l : Level)
      → IsLevel l
      → level_dom r1.high l ≡ true
      → level_dom r2.high l ≡ true
      → level_dom r.high l ≡ true
  pub low_sens : r.low.sens ≡ max r1.low.sens r2.low.sens
  pub low_cat : (i : ℕ) → get_bit r.low.cat i ≡ (get_bit r1.low.cat i && get_bit r2.low.cat i)
  pub ordered :
      level_dom r1.high r1.low ≡ true
      → level_dom r2.high r2.low ≡ true
      → level_dom r.high r.low ≡ true

range_glblub-value :
    (r1 r2 : Range)
    → r2.low.sens ≤ r1.high.sens
    → r1.low.sens ≤ r2.high.sens
    → range_glblub r1 r2
      ≡ ok (
          levels
            (level (max r1.low.sens r2.low.sens) (Ebitmap.and r1.low.cat r2.low.cat))
            (meet r1.high r2.high))
unfolding range_glblub meet
range_glblub-value r1 r2 p q =
    let first : ltb r1.high.sens r2.low.sens ≡ false = ground arith in
    let second : ltb r2.high.sens r1.low.sens ≡ false = ground arith in rw (first, second) refl

-- For two ranges of well-formed levels with a sensitivity in common, `mls_range_glblub` succeeds. The
-- high level of the result is the greatest level that both high levels dominate; its low level has
-- the larger low sensitivity and the categories that both low levels have; and when both ranges are
-- in order, so is the result.
pub range_glblub-Combines :
    (r1 r2 : Range)
    → IsRange r1
    → IsRange r2
    → r2.low.sens ≤ r1.high.sens
    → r1.low.sens ≤ r2.high.sens
    → Returns (Combines r1 r2) (range_glblub r1 r2)
range_glblub-Combines r1 r2 v1 v2 p q =
    let (below1, below2, greatest) = meet-greatest r1.high r2.high v1.1 v2.1 in
    let (low, bits) = and-bits r1.low.cat r2.low.cat v1.0 v2.0 in
    let high = meet-IsLevel r1.high r2.high v1.1 v2.1 in
    (
      _,
      range_glblub-value r1 r2 p q,
      record {
        valid = (low, high);
        below_first = below1;
        below_second = below2;
        greatest = greatest;
        low_sens = refl;
        low_cat = bits;
        ordered = λ o1 o2.
            let d1 = (level_dom_iff r1.high r1.low v1.1 v1.0).0 o1 in
            let d2 = (level_dom_iff r2.high r2.low v2.1 v2.0).0 o2 in
            let highs = (and-bits r1.high.cat r2.high.cat v1.1 v2.1).1 in
            (level_dom_iff (meet r1.high r2.high)
                (level (max r1.low.sens r2.low.sens) (Ebitmap.and r1.low.cat r2.low.cat)) high
                low).1
              (unfold meet in
                (
                  omega (arith, d1.0, d2.0, p, q),
                  λ i h. ground (arith, bits i, highs i, d1.1 i, d2.1 i),
                ));
      },
    )
