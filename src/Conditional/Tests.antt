-- ===== src/Conditional/Tests.antt =====
-- Concrete conditions and nodes.
use ap_policy.Common.{
  ℕ, ◌≤◌, ◌≡◌, ◌≢◌, refl, true, false, some, none, arith, leb, ◌==◌, if◌then◌else◌, [], ◌∷◌, ◌++◌,
}
use ap_policy.Common.Bits.{test_bit}
use ap_policy.Conditional.Rules.{Specified, is_state, evaluate_conds}
use ap_policy.Conditional.Rules.Laws.{enabled, evaluate_conds-enabled}
use ap_policy.Conditional.{State, evaluate_expr, maxdepth}
use ap_policy.Conditional.Evaluate.{
  Formula, var, neg, join, conjunction, value, postfix, cells, evaluate_expr-postfix,
}
use ap_policy.Conditional.Node.{CondNode, normalized, normalize_expr, expr_equal, node_of}
use ap_policy.Conditional.Node.Normalize.{Normal, normalize_expr-Normal}
use ap_policy.Conditional.Node.Equal.{fresh, but_not, expr_equal-confuses}

-- `!(b1 && !b2)`
abbrev sample : Formula
sample = neg (join conjunction (var 1) (neg (var 2)))

abbrev only_first : State
only_first b = b == 1

evaluate_expr-postfix_example :
    evaluate_expr only_first (postfix sample)
    ≡ (if leb (cells sample) maxdepth then some (value only_first sample) else none)
evaluate_expr-postfix_example = evaluate_expr-postfix sample only_first

sample-cells : cells sample ≤ maxdepth
unfolding cells
sample-cells = omega arith

normalize_expr-Normal_example :
    (cn' : CondNode) × (st' : State) × (normalize_expr only_first (fresh (postfix sample))
      ≡ normalized cn' st')
    × Normal only_first (fresh (postfix sample)) cn' st'
normalize_expr-Normal_example =
    normalize_expr-Normal sample only_first (fresh (postfix sample)) refl sample-cells

abbrev first : ℕ
first = 1

one_not_two : first ≢ 2
one_not_two h = omega arith

expr_equal-confuses_example :
    (a b : CondNode) × (node_of (normalize_expr only_first (fresh (but_not 1 2))) ≡ some a)
    × (node_of (normalize_expr only_first (fresh (but_not 2 1))) ≡ some b)
    × (expr_equal a b ≡ true)
    × (evaluate_expr only_first a.expr ≡ some true)
    × (evaluate_expr only_first b.expr ≡ some false)
expr_equal-confuses_example =
    expr_equal-confuses first 2 only_first only_first one_not_two refl refl

abbrev guarded : CondNode
guarded = record (fresh (but_not 1 2)) { true_list = 7 ∷ []; false_list = 8 ∷ [] }

abbrev nothing_on : Specified
nothing_on a = 1

evaluate_conds-enabled_example :
    enabled ((evaluate_conds only_first ([] ++ (guarded ∷ [])) nothing_on).1 7)
    ≡ is_state true (evaluate_expr only_first guarded.expr)
unfolding test_bit
evaluate_conds-enabled_example =
    evaluate_conds-enabled true only_first [] guarded [] nothing_on 7 refl refl refl refl refl
