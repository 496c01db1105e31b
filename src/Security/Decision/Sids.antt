-- ===== src/Security/Decision/Sids.antt =====
-- The entries of libsepol/src/services.c that take SIDs: `sepol_compute_av_reason` and
-- `sepol_validate_transition_reason_buffer`.
use ap_policy.Common.{
  ℕ, Bool, true, false, Option, some, none, List, [], ◌∷◌, ltb, ◌==◌, if◌then◌else◌, ◌||◌,
}
use ap_policy.Common.Results.{Result, ok, err, einval, ◌>>=◌}
use ap_policy.Mls.{Context}
use ap_policy.Sidtab.{Sidtab, search}
use ap_policy.Security.Constraint.{ConstraintNode, Env, evaluate}
use ap_policy.Security.TypeRules.{Policy}
use ap_policy.Security.Decision.{Check, is_denied, env_of, compute_av}

-- `sepol_sidtab_search` with its error
abbrev pub context_of : Sidtab → ℕ → Result Context
context_of sidtab sid = elim (search sidtab sid) [ none ↦ err einval | some c ↦ ok c ]

-- `sepol_compute_av_reason`
pub compute_av_reason : ℕ → Policy → Sidtab → ℕ → ℕ → ℕ → ℕ → Option (Result Check)
compute_av_reason fuel pol sidtab ssid tsid tclass requested = elim (context_of sidtab ssid) [
  | err e ↦ some (err e)
  | ok scontext ↦ elim (context_of sidtab tsid) [
    | err e ↦ some (err e)
    | ok tcontext ↦ compute_av fuel pol tclass scontext tcontext requested
  ]
]

-- the loop over `validatetrans`; false for -EPERM
pub validate_loop : Env → List ConstraintNode → Bool
validate_loop env [] = true
validate_loop env (c ∷ cs) = if is_denied (evaluate env c.expr) then false else validate_loop env cs

-- `sepol_validate_transition_reason_buffer` without the buffer; 0 is `ok true` and -EPERM `ok false`
pub validate_transition : Policy → Sidtab → ℕ → ℕ → ℕ → ℕ → Result Bool
unfolding validate_loop
validate_transition pol sidtab oldsid newsid tasksid tclass =
    if tclass == 0 || ltb pol.nprim tclass then err einval else (do
      ocontext ← context_of sidtab oldsid
      ncontext ← context_of sidtab newsid
      tcontext ← context_of sidtab tasksid
      ok (validate_loop (env_of pol ocontext ncontext (some tcontext)) (pol.validatetrans tclass)))
