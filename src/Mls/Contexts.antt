-- ===== src/Mls/Contexts.antt =====
-- Contexts as a whole: `context_cpy` and `context_cmp` of include/sepol/policydb/context.h, and the
-- copies of a range into a context in libsepol/src/mls.c.
use ap_policy.Common.{◌≡◌, ◌↔◌, refl, Bool, true, arith, ◌&&◌}
use ap_policy.Common.Results.{Result, ok, err}
use ap_policy.Ebitmap.{cpy}
use ap_policy.Ebitmap.Shape.{cpy_lem}
use ap_policy.Mls.{
  level, Range, levels, Context, level_cpy, level_eq, range_cpy, range_eq, range_glblub,
  context_cpy_range, context_cmp,
}
use ap_policy.Mls.Order.{level_eq_iff}

unfoldable pub context_cpy : Context → Context → Context
context_cpy dst src =
    context_cpy_range (record dst { user = src.user; role = src.role; type = src.type }) src

-- `mls_context_glblub`
unfoldable pub context_glblub : Context → Context → Context → Result Context
context_glblub dst c1 c2 = elim (range_glblub c1.range c2.range) [
  | err e ↦ err e
  | ok r ↦ ok (record dst { range = r })
]

-- `mls_context_cmp`
pub range_cmp : Context → Context → Bool
range_cmp c1 c2 = level_eq c1.range.low c2.range.low && level_eq c1.range.high c2.range.high

-- `mls_copy_context` and `mls_scopy_context`
unfoldable pub copy_context : Context → Context → Context
copy_context dst src = record dst {
  range =
      levels (level src.range.low.sens (cpy src.range.low.cat))
        (level src.range.high.sens (cpy src.range.high.cat));
}

unfoldable pub scopy_context : Context → Context → Context
scopy_context dst src = record dst {
  range =
      levels (level src.range.low.sens (cpy src.range.low.cat))
        (level src.range.low.sens (cpy src.range.low.cat));
}

-- `mls_range_set`
unfoldable pub range_set : Context → Range → Context
range_set context range = record context {
  range =
      levels (level range.low.sens (cpy range.low.cat))
        (level range.high.sens (cpy range.high.cat));
}

range_eq_iff : (r1 r2 : Range) → (range_eq r1 r2 ≡ true) ↔ (r1 ≡ r2)
unfolding range_eq
range_eq_iff r1 r2 = (
  λ h.
      let low = (level_eq_iff r1.low r2.low).0 (ground arith) in
      let high = (level_eq_iff r1.high r2.high).0 (ground arith) in λ i. levels (low i) (high i),
  λ e.
      rw e (
        ground (arith, (level_eq_iff r2.low r2.low).1 refl, (level_eq_iff r2.high r2.high).1 refl)),
)

-- `context_cmp` is true exactly of equal contexts.
pub context_cmp_iff : (c1 c2 : Context) → (context_cmp c1 c2 ≡ true) ↔ (c1 ≡ c2)
unfolding context_cmp
context_cmp_iff c1 c2 = (
  λ h.
      let range = (range_eq_iff c1.range c2.range).0 (ground arith) in
      let user : c1.user ≡ c2.user = ground arith in
      let role : c1.role ≡ c2.role = ground arith in
      let type : c1.type ≡ c2.type = ground arith in
      λ i. record { user = user i; role = role i; type = type i; range = range i },
  λ e. rw e (ground (arith, (range_eq_iff c2.range c2.range).1 refl)),
)

range_same :
    (r : Range) → levels (level r.low.sens (cpy r.low.cat)) (level r.high.sens (cpy r.high.cat)) ≡ r
range_same r = rw (cpy_lem r.low.cat, cpy_lem r.high.cat) refl

-- After `context_cpy` into any context, `context_cmp` finds the copy equal to its source; and after
-- `mls_copy_context` or `mls_range_set` the range compares equal to the one copied.
pub context_cpy-cmp :
    (dst src : Context)
    → (context_cmp (context_cpy dst src) src ≡ true)
      × (range_cmp (copy_context dst src) src ≡ true)
      × (range_cmp (range_set dst src.range) src ≡ true)
unfolding context_cpy context_cpy_range range_cpy level_cpy range_cmp copy_context range_set
context_cpy-cmp dst src =
    let same = range_same src.range in
    let refl_range : range_eq src.range src.range ≡ true =
      (range_eq_iff src.range src.range).1 refl in
    (
      (context_cmp_iff _ src).1 (λ i. record src { range = same i }),
      rw (cpy_lem src.range.low.cat, cpy_lem src.range.high.cat) (unfold range_eq in refl_range),
      rw (cpy_lem src.range.low.cat, cpy_lem src.range.high.cat) (unfold range_eq in refl_range),
    )
