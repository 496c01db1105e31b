-- ===== src/Mls/Transition.antt =====
-- `mls_compute_sid` of libsepol/src/mls.c: the range of a context that is computed from two others.
use ap_policy.Common.{
  ℕ, ◌≡◌, refl, sym, subst, ◌∙◌, Bool, true, Option, some, none, arith, ltb, leb, ◌==◌,
  if◌then◌else◌, ◌&&◌, inl, inr, Bool-cases, Option-cases,
}
use ap_policy.Common.Results.{Result, ok, err, einval, ok-injective}
use ap_policy.Ebitmap
use ap_policy.Ebitmap.Shape.{cpy_lem}
use ap_policy.Mls.{
  Level, level, Range, levels, Context, level_dom, level_cpy, range_cpy, range_glblub,
  context_cpy_range, context_cpy_low, context_cpy_high,
}
use ap_policy.Mls.Order.{IsLevel, IsRange, level_dom_refl}
use ap_policy.Mls.Contexts.{context_glblub, copy_context, scopy_context, range_set}
use ap_policy.Mls.Glblub.{range_glblub-Combines, range_glblub-refuses}

-- the DEFAULT_ constants of a class; `unset` is every other number
pub data DefaultRange : Type 0 where
  unset source_low source_high source_low_high target_low target_high target_low_high glblub :
      DefaultRange

-- the kinds of rule that `specified` names
pub data RuleKind : Type 0 where
  transition change member other_kind : RuleKind

-- what the function reads of the policy; `range_tr` is the search in the table of range transitions
-- by source type, target type and class, and `class_default` the array of classes from 1 on
pub record Policy : Type 0 where
  pub mls : Bool
  pub range_tr : ℕ → ℕ → ℕ → Option Range
  pub nprim : ℕ
  pub class_default : ℕ → Option DefaultRange
  pub process_class : ℕ

pub default_of : Policy → ℕ → DefaultRange
default_of p tclass =
    if ltb 0 tclass && leb tclass p.nprim
    then elim (p.class_default tclass) [ none ↦ unset | some d ↦ d ]
    else unset

-- the case of AVTAB_CHANGE
pub change_range : Policy → Context → ℕ → Context → Result Context
change_range p scontext tclass newcontext =
    if tclass == p.process_class
    then ok (copy_context newcontext scontext)
    else ok (scopy_context newcontext scontext)

-- the switch over the default range, which falls through to AVTAB_CHANGE
pub default_cases : DefaultRange → Policy → Context → Context → ℕ → Context → Result Context
unfolding change_range
default_cases unset p s t tclass new = change_range p s tclass new
default_cases source_low p s t tclass new = ok (context_cpy_low new s)
default_cases source_high p s t tclass new = ok (context_cpy_high new s)
default_cases source_low_high p s t tclass new = ok (context_cpy_range new s)
default_cases target_low p s t tclass new = ok (context_cpy_low new t)
default_cases target_high p s t tclass new = ok (context_cpy_high new t)
default_cases target_low_high p s t tclass new = ok (context_cpy_range new t)
default_cases glblub p s t tclass new = context_glblub new s t

-- `mls_compute_sid`: the new value of `newcontext`
unfoldable pub compute_sid : Policy → Context → Context → ℕ → RuleKind → Context → Result Context
unfolding default_of default_cases
compute_sid p s t tclass kind new =
    if p.mls
    then elim kind [
      | transition ↦ elim (p.range_tr s.type t.type tclass) [
        | some r ↦ ok (range_set new r)
        | none ↦ default_cases (default_of p tclass) p s t tclass new
      ]
      | change ↦ change_range p s tclass new
      | member ↦ ok (context_cpy_low new s)
      | other_kind ↦ err einval
    ]
    else ok new

-- a range in order
abbrev pub InOrder : Range → Type 0
InOrder r = IsRange r × (level_dom r.high r.low ≡ true)

cpy-InOrder :
    (r : Range)
    → InOrder r
    → InOrder (
        levels
          (level r.low.sens (Ebitmap.cpy r.low.cat))
          (level r.high.sens (Ebitmap.cpy r.high.cat)))
cpy-InOrder r o = rw (cpy_lem r.low.cat, cpy_lem r.high.cat) o

point-InOrder :
    (l : Level)
    → IsLevel l
    → InOrder (levels (level l.sens (Ebitmap.cpy l.cat)) (level l.sens (Ebitmap.cpy l.cat)))
point-InOrder l v = rw (cpy_lem l.cat) ((v, v), level_dom_refl l v)

glblub-InOrder : (r1 r2 r : Range) → InOrder r1 → InOrder r2 → range_glblub r1 r2 ≡ ok r → InOrder r
glblub-InOrder r1 r2 r o1 o2 h = elim (Bool-cases (ltb r1.high.sens r2.low.sens)) [
  | inl below ↦ cc ((range_glblub-refuses r1 r2).1 (inl (ground arith)))
  | inr fine ↦ elim (Bool-cases (ltb r2.high.sens r1.low.sens)) [
    | inl below ↦ cc ((range_glblub-refuses r1 r2).1 (inr (ground arith)))
    | inr good ↦
        let (made, is_made, c) =
          range_glblub-Combines r1 r2 o1.0 o2.0 (ground arith) (ground arith) in
        subst InOrder (ok-injective (sym is_made ∙ h)) (c.valid, c.ordered o1.1 o2.1)
  ]
]

-- the new context: its range is in order, and nothing else of it changes
pub record Labelled (new c : Context) : Type 0 where
  pub in_order : InOrder c.range
  pub user : c.user ≡ new.user
  pub role : c.role ≡ new.role
  pub type : c.type ≡ new.type

labelled :
    (new c : Context) (r : Range)
    → InOrder r
    → ok (record new { range = r }) ≡ ok c
    → Labelled new c
labelled new c r o h =
    subst (Labelled new) (ok-injective h)
      (record { in_order = o; user = refl; role = refl; type = refl })

module _ (p : Policy) (s t : Context) (os : InOrder s.range) (ot : InOrder t.range) where
  change-Labelled :
      (tclass : ℕ) (new c : Context) → change_range p s tclass new ≡ ok c → Labelled new c
  unfolding change_range copy_context scopy_context
  change-Labelled tclass new c h = elim (Bool-cases (tclass == p.process_class)) [
    | inl process ↦ labelled new c _ (cpy-InOrder s.range os) (rw process at h)
    | inr other ↦ labelled new c _ (point-InOrder s.range.low os.0.0) (rw other at h)
  ]

  default-Labelled :
      (d : DefaultRange) (tclass : ℕ) (new c : Context)
      → default_cases d p s t tclass new ≡ ok c
      → Labelled new c
  unfolding default_cases context_cpy_low context_cpy_high context_cpy_range range_cpy level_cpy
      context_glblub
  default-Labelled unset tclass new c h = change-Labelled tclass new c h
  default-Labelled source_low tclass new c h = labelled new c _ (point-InOrder s.range.low os.0.0) h
  default-Labelled source_high tclass new c h =
      labelled new c _ (point-InOrder s.range.high os.0.1) h
  default-Labelled source_low_high tclass new c h = labelled new c _ (cpy-InOrder s.range os) h
  default-Labelled target_low tclass new c h = labelled new c _ (point-InOrder t.range.low ot.0.0) h
  default-Labelled target_high tclass new c h =
      labelled new c _ (point-InOrder t.range.high ot.0.1) h
  default-Labelled target_low_high tclass new c h = labelled new c _ (cpy-InOrder t.range ot) h
  default-Labelled glblub tclass new c h = combined (range_glblub s.range t.range) refl h
    where
      combined :
          (r : Result Range)
          → range_glblub s.range t.range ≡ r
          → (elim r [ err e ↦ err e | ok m ↦ ok (record new { range = m }) ]) ≡ ok c
          → Labelled new c
      combined (err e) is h' = cc
      combined (ok m) is h' = labelled new c m (glblub-InOrder s.range t.range m os ot is) h'

-- When a policy has MLS, the ranges of both contexts are in order, and so are those of all range
-- transitions, a call of `mls_compute_sid` that succeeds gives the new context a range in order, and
-- leaves its user, role and type.
pub compute_sid-Labelled :
    (p : Policy) (s t : Context) (tclass : ℕ) (kind : RuleKind) (new c : Context)
    → p.mls ≡ true
    → InOrder s.range
    → InOrder t.range
    → ((a b n : ℕ) (r : Range) → p.range_tr a b n ≡ some r → InOrder r)
    → compute_sid p s t tclass kind new ≡ ok c
    → Labelled new c
unfolding compute_sid range_set context_cpy_low
compute_sid-Labelled p s t tclass transition new c m os ot rules h =
    elim (Option-cases (p.range_tr s.type t.type tclass)) [
      | inl missing ↦
          default-Labelled p s t os ot (default_of p tclass) tclass new c (rw (m, missing) at h)
      | inr (r, hit) ↦
          labelled new c _ (cpy-InOrder r (rules s.type t.type tclass r hit)) (rw (m, hit) at h)
    ]
compute_sid-Labelled p s t tclass change new c m os ot rules h =
    change-Labelled p s t os ot tclass new c (rw m at h)
compute_sid-Labelled p s t tclass member new c m os ot rules h =
    labelled new c _ (point-InOrder s.range.low os.0.0) (rw m at h)
compute_sid-Labelled p s t tclass other_kind new c m os ot rules h = let bad = rw m at h in cc
