-- ===== src/Security/Constraint/Tests.antt =====
-- Constraints on concrete contexts.
use ap_policy.Common.{ℕ, ◌≡◌, none, some, [], ◌∷◌, leb, if◌then◌else◌}
use ap_policy.Ebitmap.{ebitmap, node, init}
use ap_policy.Mls.{Context, level, levels}
use ap_policy.Security.Constraint.{
  Env, denied, maxdepth, verdict, evaluate, attr_user, attr_type, op_eq, op_neq,
}
use ap_policy.Security.Constraint.Postfix.{
  Formula, attribute, name, neg, both, either, value, postfix, cells, evaluate-postfix,
}

abbrev context : ℕ → ℕ → Context
context user type = record {
  user = user;
  role = 1;
  type = type;
  range = levels (level 0 init) (level 0 init);
}

abbrev env : Env
env = record {
  dominates = λ r. init;
  scontext = context 1 3;
  tcontext = context 2 3;
  xcontext = none;
}

-- u1 == u2 or not (t1 != t2) and t1 in { 3 }
abbrev formula : Formula
formula =
    either (attribute attr_user op_eq)
      (both (neg (attribute attr_type op_neq)) (name attr_type op_eq (ebitmap (node 0 4 ∷ []) 64)))

evaluate-postfix_example : evaluate env (postfix formula) ≡ (elim (value env formula) [
  | none ↦ denied
  | some b ↦ if leb (cells formula) maxdepth then verdict b else denied
])
evaluate-postfix_example = evaluate-postfix env formula
