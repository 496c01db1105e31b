-- ===== src/Security/Decision.antt =====
-- The computation of access vectors in libsepol/src/services.c: `context_struct_compute_av` behind the
-- rules, with `type_attribute_bounds_av`.
pub mod Limits
pub mod Sound
pub mod Sids
mod Tests
use ap_policy.Common.{
  ℕ, zero, suc, ◌+◌, ◌%◌, ◌^◌, Bool, true, false, Option, some, none, List, [], ◌∷◌, ltb, ◌==◌,
  if◌then◌else◌, ◌&&◌, ◌||◌, not, bit_and, bit_or, bit_xor,
}
use ap_policy.Common.Results.{Result, ok, err, einval}
use ap_policy.Avtab.{Key, AvtabNode, Avtab}
use ap_policy.Avtab.Walk.{for_nodes}
use ap_policy.Ebitmap.{Ebitmap}
use ap_policy.Ebitmap.Walk.{for_each_positive_bit}
use ap_policy.Mls.{Context}
use ap_policy.Security.Constraint.{ConstraintNode, Env, Verdict, denied, granted, failed, evaluate}
use ap_policy.Security.TypeRules.{
  AvDecision, Policy, RoleAllow, and_not, attribute_bits, av_allowed, av_auditallow, av_auditdeny,
  av_key, av_rules, cond_compute_av, cond_node, defaults, inner_loop, is_enabled, outer_loop,
  pair_rules, te_node, type_rules,
}

-- `!constraint_expr_eval_reason`
abbrev pub is_denied : Verdict → Bool
is_denied denied = true
is_denied granted = false
is_denied failed = false

-- the loop over the constraints of the class
pub constrain : Env → List ConstraintNode → ℕ → ℕ
constrain env [] allowed = allowed
constrain env (c ∷ cs) allowed = constrain env cs (
    if not (bit_and c.permissions allowed == 0) && is_denied (evaluate env c.expr)
    then and_not allowed c.permissions
    else allowed)

-- a rule of the list ends its search
pub finds_role : List RoleAllow → ℕ → ℕ → Bool
finds_role [] role new_role = false
finds_role (ra ∷ ras) role new_role =
    if role == ra.role && new_role == ra.new_role then true else finds_role ras role new_role

-- the check of a role that changes
pub limit_roles : Policy → ℕ → Context → Context → ℕ → ℕ
unfolding finds_role
limit_roles pol tclass scontext tcontext allowed =
    if tclass == pol.process_class
      && (not (bit_and allowed pol.process_trans_dyntrans == 0)
          && (not (scontext.role == tcontext.role)
              && not (finds_role pol.role_allow scontext.role tcontext.role)))
    then and_not allowed pol.process_trans_dyntrans
    else allowed

-- the decision, what is left of `requested`, and `*reason`
pub record Check : Type 0 where
  pub avd : AvDecision
  pub requested : ℕ
  pub reason : ℕ

-- SEPOL_COMPUTEAV_TE, SEPOL_COMPUTEAV_CONS, SEPOL_COMPUTEAV_RBAC and SEPOL_COMPUTEAV_BOUNDS
abbrev pub reason_te : ℕ
reason_te = 1

abbrev pub reason_cons : ℕ
reason_cons = 2

abbrev pub reason_rbac : ℕ
reason_rbac = 4

abbrev pub reason_bounds : ℕ
reason_bounds = 8

pub note_missing : ℕ → Check → Check
note_missing flag c =
    if and_not c.requested c.avd.allowed == 0
    then c
    else record c { requested = bit_and c.requested c.avd.allowed; reason = bit_or c.reason flag }

abbrev pub with_allowed : ℕ → Check → Check
with_allowed allowed c = record c { avd = record c.avd { allowed = allowed } }

unfoldable pub env_of : Policy → Context → Context → Option Context → Env
env_of pol scontext tcontext xcontext = record {
  dominates = pol.dominates;
  scontext = scontext;
  tcontext = tcontext;
  xcontext = xcontext;
}

-- what stands between the loops over the rules and the bounds
pub limits : Policy → ℕ → Context → Context → ℕ → AvDecision → Check
unfolding constrain limit_roles note_missing env_of
limits pol tclass scontext tcontext requested avd =
    let te = note_missing reason_te (record { avd = avd; requested = requested; reason = 0 }) in
    let kept =
      constrain (env_of pol scontext tcontext none) (pol.constraints tclass) te.avd.allowed in
    let cons = note_missing reason_cons (with_allowed kept te) in
    note_missing reason_rbac
      (with_allowed (limit_roles pol tclass scontext tcontext cons.avd.allowed) cons)

-- the context that bounds the source, and the one that may bound the target
unfoldable pub lo_context : Policy → Context → Context
lo_context pol c = if pol.bounds c.type == 0 then c else record c { type = pol.bounds c.type }

-- `lo_avd.allowed` behind a call; the structure is cleared before it
abbrev pub lo_allowed : Result Check → ℕ
lo_allowed (err e) = 0
lo_allowed (ok c) = c.avd.allowed

-- the permissions that `lo` does not allow are masked
pub mask_bounds : ℕ → Check → Check
mask_bounds lo c =
    let masked = and_not c.avd.allowed lo in
    if masked == 0 then c else record c {
      avd = record c.avd { allowed = and_not c.avd.allowed masked };
      reason = bit_or c.reason reason_bounds;
    }

-- `type_attribute_bounds_av`; `compute` is the call of `context_struct_compute_av`
pub type_attribute_bounds_av :
    (Context → Context → ℕ → Option (Result Check))
    → Policy
    → Context
    → Context
    → Check
    → Option Check
unfolding lo_context mask_bounds
type_attribute_bounds_av compute pol scontext tcontext c = elim (pol.bounds scontext.type == 0) [
  | true ↦ some c
  | false ↦ elim (compute (lo_context pol scontext) (lo_context pol tcontext) c.requested) [
    | none ↦ none
    | some lo ↦ some (mask_bounds (lo_allowed lo) c)
  ]
]

-- `context_struct_compute_av`, on fuel for the bounds of the source's type
pub compute_av : ℕ → Policy → ℕ → Context → Context → ℕ → Option (Result Check)
unfolding limits type_attribute_bounds_av
compute_av zero pol tclass scontext tcontext requested = none
compute_av (suc fuel) pol tclass scontext tcontext requested =
    if tclass == 0 || ltb pol.nprim tclass
    then some (err einval)
    else elim (type_rules pol tclass scontext tcontext) [
      | none ↦ none
      | some avd ↦
          elim (type_attribute_bounds_av (λ s t r. compute_av fuel pol tclass s t r) pol scontext
            tcontext (limits pol tclass scontext tcontext requested avd)) [
              | none ↦ none
              | some c ↦ some (ok c)
            ]
    ]
