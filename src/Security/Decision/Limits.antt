-- ===== src/Security/Decision/Limits.antt =====
-- What constraints, role changes and bounds leave of a decision, told for one permission.
use ap_policy.Common.{
  ℕ, ◌≡◌, refl, sym, ◌∙◌, ap, Bool, false, none, List, [], ◌∷◌, arith, ◌==◌, ◌&&◌, not, xor, any,
  Bool-cases, inl, inr, bit_and,
}
use ap_policy.Common.Bits.{test_bit, test_bit-and, test_bit-xor, test_bit-zero}
use ap_policy.Mls.{Context}
use ap_policy.Security.Constraint.{ConstraintNode, Env, evaluate}
use ap_policy.Security.TypeRules.{AvDecision, Policy, and_not}
use ap_policy.Security.Decision.{
  Check, is_denied, constrain, finds_role, limit_roles, note_missing, env_of, limits, mask_bounds,
}

pub test_bit-and_not : (a b k : ℕ) → test_bit (and_not a b) k ≡ (test_bit a k && not (test_bit b k))
test_bit-and_not a b k = rw (test_bit-xor, test_bit-and) (unfold xor in ground arith)

-- a bit set in both numbers
common_bit : (a b k : ℕ) → bit_and a b ≡ 0 → (test_bit a k && test_bit b k) ≡ false
common_bit a b k h = sym (test_bit-and a b k) ∙ ap (λ x. test_bit x k) h ∙ test_bit-zero k

-- a constraint on the permission that denies it
abbrev pub forbids : Env → ℕ → ConstraintNode → Bool
forbids env k c = test_bit c.permissions k && is_denied (evaluate env c.expr)

pub constrain-test_bit :
    (env : Env) (cs : List ConstraintNode) (allowed k : ℕ)
    → test_bit (constrain env cs allowed) k ≡ (test_bit allowed k && not (any cs (forbids env k)))
unfolding constrain
constrain-test_bit env [] allowed k = ground arith
constrain-test_bit env (c ∷ cs) allowed k = elim (Bool-cases (bit_and c.permissions allowed == 0)) [
  | inl apart ↦
      rw (apart, constrain-test_bit env cs allowed k)
        (ground (arith, common_bit c.permissions allowed k (ground arith)))
  | inr meet ↦ elim (Bool-cases (is_denied (evaluate env c.expr))) [
    | inl no_access ↦
        rw
          (
            meet,
            no_access,
            constrain-test_bit env cs (and_not allowed c.permissions) k,
            test_bit-and_not,
          )
          (ground arith)
    | inr access ↦ rw (meet, access, constrain-test_bit env cs allowed k) (ground arith)
  ]
]

-- the permission is one that a change of role without a rule takes away
abbrev pub role_forbids : Policy → ℕ → Context → Context → ℕ → Bool
role_forbids pol tclass scontext tcontext k =
    tclass == pol.process_class
    && (test_bit pol.process_trans_dyntrans k
        && (not (scontext.role == tcontext.role)
            && not (finds_role pol.role_allow scontext.role tcontext.role)))

limit_roles-test_bit :
    (pol : Policy) (tclass : ℕ) (scontext tcontext : Context) (allowed k : ℕ)
    → test_bit (limit_roles pol tclass scontext tcontext allowed) k
      ≡ (test_bit allowed k && not (role_forbids pol tclass scontext tcontext k))
unfolding limit_roles
limit_roles-test_bit pol tclass scontext tcontext allowed k =
    elim (Bool-cases (bit_and allowed pol.process_trans_dyntrans == 0)) [
      | inl apart ↦
          rw apart (ground (arith, common_bit allowed pol.process_trans_dyntrans k (ground arith)))
      | inr meet ↦ ground (arith, test_bit-and_not allowed pol.process_trans_dyntrans k)
    ]

note_missing-avd : (flag : ℕ) (c : Check) → (note_missing flag c).avd ≡ c.avd
unfolding note_missing
note_missing-avd flag c = ground arith

-- neither a constraint nor the change of role takes the permission away
unfoldable pub unlimited : Policy → ℕ → Context → Context → ℕ → Bool
unlimited pol tclass scontext tcontext k =
    not (any (pol.constraints tclass) (forbids (env_of pol scontext tcontext none) k))
    && not (role_forbids pol tclass scontext tcontext k)

pub limits-test_bit :
    (pol : Policy) (tclass : ℕ) (scontext tcontext : Context) (requested : ℕ) (avd : AvDecision)
    (k : ℕ)
    → test_bit (limits pol tclass scontext tcontext requested avd).avd.allowed k
      ≡ (test_bit avd.allowed k && unlimited pol tclass scontext tcontext k)
unfolding limits unlimited
limits-test_bit pol tclass scontext tcontext requested avd k =
    rw
      (
        note_missing-avd, note_missing-avd, note_missing-avd, limit_roles-test_bit,
        constrain-test_bit,
      )
      (ground arith)

pub mask_bounds-test_bit :
    (lo : ℕ) (c : Check) (k : ℕ)
    → test_bit (mask_bounds lo c).avd.allowed k ≡ (test_bit c.avd.allowed k && test_bit lo k)
unfolding mask_bounds
mask_bounds-test_bit lo c k = elim (Bool-cases (and_not c.avd.allowed lo == 0)) [
  | inl none_masked ↦
      let zero_mask : and_not c.avd.allowed lo ≡ 0 = ground arith in
      let clear = ap (λ x. test_bit x k) zero_mask in
      rw none_masked (ground (arith, clear, test_bit-and_not c.avd.allowed lo k, test_bit-zero k))
  | inr some_masked ↦ rw (some_masked, test_bit-and_not, test_bit-and_not) (ground arith)
]

-- the audit vectors of two decisions are the same
pub record SameAudit (a b : AvDecision) : Type 0 where
  pub auditallow : a.auditallow ≡ b.auditallow
  pub auditdeny : a.auditdeny ≡ b.auditdeny

pub limits-SameAudit :
    (pol : Policy) (tclass : ℕ) (scontext tcontext : Context) (requested : ℕ) (avd : AvDecision)
    → SameAudit (limits pol tclass scontext tcontext requested avd).avd avd
unfolding limits
limits-SameAudit pol tclass scontext tcontext requested avd =
    rw (note_missing-avd, note_missing-avd, note_missing-avd)
      (record { auditallow = refl; auditdeny = refl })

pub mask_bounds-SameAudit : (lo : ℕ) (c : Check) → SameAudit (mask_bounds lo c).avd c.avd
unfolding mask_bounds
mask_bounds-SameAudit lo c = record { auditallow = ground arith; auditdeny = ground arith }
