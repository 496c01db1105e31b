-- ===== src/Security/Transition/Laws.antt =====
-- What the SID of a new object stands for.
use ap_policy.Common.{
  ℕ, ◌≡◌, ◌⊎◌, refl, ap, subst, ◌∙◌, true, false, Option, some, none, List, [], ◌∷◌, ◌++◌, arith,
  ◌==◌, if◌then◌else◌, ◌&&◌, not, bit_and, inl, inr, Bool-cases,
}
use ap_policy.Common.Results.{Errno, Result, ok, err, eacces, enomem, ok-injective}
use ap_policy.Avtab.{Key, Datum, AvtabNode, enabled_bit, search}
use ap_policy.Avtab.Table.{IsValid}
use ap_policy.Avtab.Found.{head_datum, search-rules_of}
use ap_policy.Avtab.Walk.{fold_nodes, for_nodes, rules_of, for_nodes-rules_of}
use ap_policy.Ebitmap.{init}
use ap_policy.Ebitmap.Shape
use ap_policy.Mls.{Context, Range}
use ap_policy.Mls.Transition.{
  RuleKind, InOrder, compute_sid-Labelled, compute_sid as mls_compute_sid,
}
use ap_policy.Security.Transition.{
  Policy, first_enabled, type_rule, new_context, label, compute_sid,
}
use ap_policy.Security.Validity.Laws.{IsAuthorized, context_is_valid_iff}
use ap_policy.Sidtab.{Sidtab, context_to_sid, search as sidtab_search}
use ap_policy.Sidtab.View
use ap_policy.Sidtab.View.Assign.{Assigned, Full, context_to_sid-Assigned}

-- the rules that are enabled
abbrev pub enabled : List AvtabNode → List AvtabNode
enabled [] = []
enabled (n ∷ ns) =
    if not (bit_and n.key.specified enabled_bit == 0) then n ∷ enabled ns else enabled ns

fold-some :
    (specified : ℕ) (d : Datum) (ns : List AvtabNode)
    → fold_nodes first_enabled specified (some d) ns ≡ some d
unfolding first_enabled
fold-some specified d [] = refl
fold-some specified d (n ∷ ns) = fold-some specified d ns

fold-enabled :
    (specified : ℕ) (ns : List AvtabNode)
    → fold_nodes first_enabled specified none ns ≡ head_datum (enabled ns)
unfolding first_enabled
fold-enabled specified [] = refl
fold-enabled specified (n ∷ ns) =
    elim (Bool-cases (not (bit_and n.key.specified enabled_bit == 0))) [
      | inl on ↦ rw (on) (fold-some specified n.datum ns)
      | inr off ↦ rw (off) (fold-enabled specified ns)
    ]

-- In two well-formed tables the rule for the new type is the first of the unconditional rules of the key,
-- and where there is none the first of the conditional rules that is enabled.
pub type_rule-rules_of :
    (pol : Policy) (key : Key)
    → IsValid pol.te_avtab
    → IsValid pol.te_cond_avtab
    → type_rule pol key
      ≡ head_datum (rules_of pol.te_avtab key ++ enabled (rules_of pol.te_cond_avtab key))
unfolding type_rule
type_rule-rules_of pol key v w =
    let found = search-rules_of pol.te_avtab key v in
    let conditional =
      for_nodes-rules_of first_enabled key.specified pol.te_cond_avtab key none w refl
      ∙ fold-enabled key.specified (rules_of pol.te_cond_avtab key) in
    cases (rules_of pol.te_avtab key) found conditional
  where
    cases :
        (rules : List AvtabNode)
        → search pol.te_avtab key ≡ head_datum rules
        → for_nodes first_enabled pol.te_cond_avtab key none
          ≡ head_datum (enabled (rules_of pol.te_cond_avtab key))
        → type_rule pol key ≡ head_datum (rules ++ enabled (rules_of pol.te_cond_avtab key))
    cases [] e c = rw (type_rule, e) c
    cases (n ∷ ns) e c = rw (type_rule, e) refl

-- the context that `mls_compute_sid` makes of the new user, role and type
abbrev pub Made : Policy → RuleKind → Context → Context → ℕ → Context → Type 0
Made pol kind s t tclass new =
    mls_compute_sid pol.mls s t tclass kind (new_context pol kind s t tclass) ≡ ok new

-- a SID is given: it stands for the context made, which is authorized where the policy is enforced
pub record Given (pol : Policy) (sidtab : Sidtab) (kind : RuleKind) (s t : Context) (tclass : ℕ)
    (sidtab' : Sidtab) (sid : ℕ) : Type 0 where
  pub new : Context
  pub made : Made pol kind s t tclass new
  pub user : new.user ≡ (new_context pol kind s t tclass).user
  pub role : new.role ≡ (new_context pol kind s t tclass).role
  pub type : new.type ≡ (new_context pol kind s t tclass).type
  pub authorized : pol.enforcing ≡ true → IsAuthorized pol.validity new
  pub assigned : Assigned sidtab new sidtab' sid

module _ (pol : Policy) (sidtab : Sidtab) (kind : RuleKind) (s t : Context) (tclass : ℕ) where
  -- the range of the context made is well-formed
  record Formed (new : Context) : Type 0 where
    low : Shape.IsValid new.range.low.cat
    high : Shape.IsValid new.range.high.cat
    user : new.user ≡ (new_context pol kind s t tclass).user
    role : new.role ≡ (new_context pol kind s t tclass).role
    type : new.type ≡ (new_context pol kind s t tclass).type

  init-IsValid : Shape.IsValid init
  init-IsValid = record { chain = tt; top = refl; fits = omega arith }

  new_context-Formed :
      (new : Context)
      → InOrder s.range
      → InOrder t.range
      → ((a b n : ℕ) (r : Range) → pol.mls.range_tr a b n ≡ some r → InOrder r)
      → Made pol kind s t tclass new
      → Formed new
  unfolding mls_compute_sid new_context
  new_context-Formed new os ot rules m = elim (Bool-cases pol.mls.mls) [
    | inl on ↦
        let l =
          compute_sid-Labelled pol.mls s t tclass kind (new_context pol kind s t tclass) new on os
            ot rules m in
        record {
          low = l.in_order.0.0;
          high = l.in_order.0.1;
          user = l.user;
          role = l.role;
          type = l.type;
        }
    | inr off ↦
        let same : new_context pol kind s t tclass ≡ new =
          ok-injective (rw (off, mls_compute_sid) at m) in
        subst Formed same (record {
          low = init-IsValid;
          high = init-IsValid;
          user = refl;
          role = refl;
          type = refl;
        })
  ]

  -- why no SID is given
  pub data Refused (e : Errno) : Type 0 where
    no_range :
        mls_compute_sid pol.mls s t tclass kind (new_context pol kind s t tclass) ≡ err e
        → Refused e
    unauthorized :
        (new : Context)
        → Made pol kind s t tclass new
        → pol.enforcing ≡ true
        → (IsAuthorized pol.validity new → false ≡ true)
        → e ≡ eacces
        → Refused e
    no_sid : Full sidtab → e ≡ enomem → Refused e

  -- the two ends of a call
  abbrev pub Ends : Option (Sidtab × Result ℕ) → Type 0
  Ends out =
      ((sidtab' : Sidtab) × (sid : ℕ) × (out ≡ some (sidtab', ok sid))
        × Given pol sidtab kind s t tclass sidtab' sid)
      ⊎ ((e : Errno) × (out ≡ some (sidtab, err e)) × Refused e)

  label-Ends :
      (new : Context)
      → View.IsValid sidtab
      → Made pol kind s t tclass new
      → Formed new
      → Ends (label pol sidtab new)
  unfolding label
  label-Ends new v made f =
      let (valid, run, iff) = context_is_valid_iff pol.validity new f.low f.high in
      elim (Bool-cases (not valid && pol.enforcing)) [
        | inl bad ↦ inr (
          eacces,
          rw (label, run, bad) refl,
          unauthorized new made (ground arith) (λ w. let is_valid = iff.1 w in ground arith) refl,
        )
        | inr good ↦
            let step : label pol sidtab new ≡ some (context_to_sid sidtab new) =
              rw (label, run, good) refl in
            elim (context_to_sid-Assigned sidtab new v) [
              | inl (sidtab', sid, taken, a) ↦ inl (
                sidtab',
                sid,
                step ∙ ap some taken,
                record {
                  new = new;
                  made = made;
                  user = f.user;
                  role = f.role;
                  type = f.type;
                  authorized = λ on. iff.0 (ground arith);
                  assigned = a;
                },
              )
              | inr (refused, _, full) ↦ inr (enomem, step ∙ ap some refused, no_sid full refl)
            ]
      ]

-- For a valid SID table that has contexts for both SIDs, with ranges in order there and in the range
-- transitions, `sepol_compute_sid` ends in one of two ways. It returns a SID: from then on the SID stands for
-- a context with the user, role and type of the defaults and rules and the range of `mls_compute_sid`, the
-- table stays valid and keeps the other SIDs, and the context is authorized if the policy is enforced. Or it
-- returns an error and leaves the table as it is: the error of `mls_compute_sid`, -EACCES for a context that
-- is not authorized where the policy is enforced, or -ENOMEM as the SIDs are used up or the table shut down.
pub compute_sid-Ends :
    (pol : Policy) (sidtab : Sidtab) (ssid tsid tclass : ℕ) (kind : RuleKind) (s t : Context)
    → View.IsValid sidtab
    → sidtab_search sidtab ssid ≡ some s
    → sidtab_search sidtab tsid ≡ some t
    → InOrder s.range
    → InOrder t.range
    → ((a b n : ℕ) (r : Range) → pol.mls.range_tr a b n ≡ some r → InOrder r)
    → Ends pol sidtab kind s t tclass (compute_sid pol sidtab ssid tsid tclass kind)
unfolding compute_sid
compute_sid-Ends pol sidtab ssid tsid tclass kind s t v is it os ot rules =
    let base = new_context pol kind s t tclass in
    cases (mls_compute_sid pol.mls s t tclass kind base) refl
  where
    cases :
        (made : Result Context)
        → mls_compute_sid pol.mls s t tclass kind (new_context pol kind s t tclass) ≡ made
        → Ends pol sidtab kind s t tclass (compute_sid pol sidtab ssid tsid tclass kind)
    cases (err e) m = inr (e, rw (compute_sid, is, it, m) refl, no_range m)
    cases (ok new) m =
        rw (compute_sid, is, it, m)
          (label-Ends pol sidtab kind s t tclass new v m
            (new_context-Formed pol sidtab kind s t tclass new os ot rules m))
