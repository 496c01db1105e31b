-- ===== src/Security/Decision/Tests.antt =====
-- Decisions of a small policy with a bounded type.
use ap_policy.Common.{
  ℕ, zero, suc, ◌<◌, ◌≡◌, ◌↔◌, refl, true, none, some, inr, [], ◌∷◌, arith, ◌==◌, if◌then◌else◌,
}
use ap_policy.Common.Bits.{test_bit}
use ap_policy.Common.Buckets.{chain_at}
use ap_policy.Common.Results.{ok}
use ap_policy.Avtab.{AvtabNode, Avtab}
use ap_policy.Avtab.Table.{IsValid}
use ap_policy.Avtab.Chain.{IsSorted}
use ap_policy.Ebitmap.{Ebitmap, ebitmap, node, init}
use ap_policy.Mls.{Context, level, levels}
use ap_policy.Security.Constraint.{ConstraintNode, cexpr_attr, attr_user, op_eq}
use ap_policy.Security.TypeRules.{Policy}
use ap_policy.Security.Decision.{Check, compute_av, lo_context}
use ap_policy.Security.TypeRules.Gather.{IsSound}
use ap_policy.Security.Decision.Sound.{EndsIn, Permits, compute_av-Permits}
use ap_policy.Security.Decision.Sound.Audit.{Audits, compute_av-Audits, compute_av-bounds}

abbrev context : ℕ → ℕ → Context
context user type = record {
  user = user;
  role = 1;
  type = type;
  range = levels (level 0 init) (level 0 init);
}

abbrev rule : ℕ → ℕ → AvtabNode
rule specified bits = record {
  key = record { source_type = 1; target_type = 1; target_class = 2; specified = specified };
  datum = record { data_bits = bits; xperms = none };
}

abbrev one_rule : AvtabNode → Avtab
one_rule n = record { htable = (n ∷ []) ∷ []; nel = 1; nslot = 1; mask = 0 }

-- the attributes 0 and 1
abbrev attributes : Ebitmap
attributes = ebitmap (node 0 3 ∷ []) 64

-- the users are the same, for the permission 1
abbrev same_user : ConstraintNode
same_user = record {
  permissions = 2;
  expr = record { expr_type = cexpr_attr; attr = attr_user; op = op_eq; names = init } ∷ [];
}

-- the type 1 is bounded by the type 2
abbrev policy : Policy
policy = record {
  nprim = 2;
  constraints = λ c. same_user ∷ [];
  validatetrans = λ c. [];
  type_attr_map = λ type. attributes;
  bounds = λ type. if type == 1 then 2 else 0;
  dominates = λ role. init;
  te_avtab = one_rule (rule 1 6);
  te_cond_avtab = one_rule (rule 0x8001 8);
  role_allow = [];
  process_class = 1;
  process_trans_dyntrans = 3;
  latest_granting = 0;
}

one_rule-IsValid : (n : AvtabNode) → IsValid (one_rule n)
unfolding chain_at
one_rule-IsValid n = record { room = omega arith; sorted = sorted }
  where
    sorted : (i : ℕ) → IsSorted (chain_at i (one_rule n).htable)
    sorted zero = (tt, tt)
    sorted (suc i) = tt

policy-IsSound : IsSound policy
policy-IsSound = record {
  te = one_rule-IsValid (rule 1 6);
  cond = one_rule-IsValid (rule 0x8001 8);
  attributes = λ type. record {
    chain = (omega arith, refl, omega arith, omega arith, tt);
    top = refl;
    fits = omega arith;
  };
}

bounds_end : EndsIn policy 1 1
bounds_end = inr refl

compute_av-Permits_example :
    (c : Check) × (compute_av 2 policy 2 (context 1 1) (context 2 3) 14 ≡ some (ok c))
    × ((k : ℕ) → (test_bit c.avd.allowed k ≡ true) ↔ Permits policy 2 k (context 1 1) (context 2 3))
compute_av-Permits_example =
    compute_av-Permits 1 policy 2 14 (context 1 1) (context 2 3) policy-IsSound (omega arith)
      (omega arith) bounds_end

compute_av-Audits_example :
    (c : Check) × (compute_av 2 policy 2 (context 1 1) (context 2 3) 14 ≡ some (ok c))
    × ((k : ℕ) → k < 32 → Audits policy 2 (context 1 1) (context 2 3) c.avd k)
compute_av-Audits_example =
    compute_av-Audits 1 policy 2 14 (context 1 1) (context 2 3) policy-IsSound (omega arith)
      (omega arith) bounds_end

compute_av-bounds_example :
    (c : Check) × (compute_av 2 policy 2 (context 1 1) (context 2 3) 14 ≡ some (ok c))
    × (d : Check) × (compute_av 1 policy 2
          (lo_context policy (context 1 1))
          (lo_context policy (context 2 3))
          6
        ≡ some (ok d))
    × ((k : ℕ) → test_bit c.avd.allowed k ≡ true → test_bit d.avd.allowed k ≡ true)
compute_av-bounds_example =
    compute_av-bounds 0 policy 2 14 6 (context 1 1) (context 2 3) policy-IsSound (omega arith)
      (omega arith) refl refl
