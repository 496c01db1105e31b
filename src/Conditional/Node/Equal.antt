-- ===== src/Conditional/Node/Equal.antt =====
-- `cond_expr_equal` on normalized nodes.
use ap_policy.Common.{ℕ, ◌≡◌, ◌≢◌, refl, sym, true, false, some, none, List, [], ◌∷◌, arith, ◌==◌}
use ap_policy.Common.Bits.{test_bit}
use ap_policy.Conditional.{CondExpr, State, op, operand, cond_not, cond_and, evaluate_expr}
use ap_policy.Conditional.Node.{
  CondNode, normalize_expr, expr_equal, node_of, same_bools, all_present, bool_present,
  present_below, find_bools, assign, precompute, restore,
}

-- the postfix form of `x && !y`
abbrev pub but_not : ℕ → ℕ → List CondExpr
but_not x y = operand x ∷ operand y ∷ op cond_not ∷ op cond_and ∷ []

abbrev pub fresh : List CondExpr → CondNode
fresh expr = record {
  cur_state = none;
  expr = expr;
  true_list = [];
  false_list = [];
  avtrue_list = [];
  avfalse_list = [];
  nbools = 0;
  bool_ids = [];
  expr_pre_comp = 0;
  flags = 0;
}

abbrev tabulated : ℕ → ℕ → CondNode
tabulated x y = record (fresh (but_not x y)) {
  nbools = 2;
  bool_ids = x ∷ y ∷ [];
  expr_pre_comp = 2;
}

-- the bits of the four combinations: `x` is bit 0, and `y` bit 1
normalize-but_not :
    (x y : ℕ) (st : State)
    → x ≢ y
    → node_of (normalize_expr st (fresh (but_not x y))) ≡ some (tabulated x y)
unfolding normalize_expr find_bools precompute assign restore evaluate_expr test_bit
normalize-but_not x y st ne =
    let yx : (y == x) ≡ false = ground arith in
    let xy : (x == y) ≡ false = ground arith in
    let xx : (x == x) ≡ true = ground arith in
    let yy : (y == y) ≡ true = ground arith in simp (yx, xy, xx, yy)

swapped-equal : (x y : ℕ) → x ≢ y → expr_equal (tabulated x y) (tabulated y x) ≡ true
unfolding expr_equal same_bools all_present bool_present present_below
swapped-equal x y ne = ground arith

-- For two different booleans, `x && !y` and `y && !x` normalize to two nodes that `cond_expr_equal`
-- takes for equal, although where `x` is true and `y` is false the first is true and the second false.
pub expr_equal-confuses :
    (x y : ℕ) (st s : State)
    → x ≢ y
    → s x ≡ true
    → s y ≡ false
    → (a b : CondNode) × (node_of (normalize_expr st (fresh (but_not x y))) ≡ some a)
      × (node_of (normalize_expr st (fresh (but_not y x))) ≡ some b)
      × (expr_equal a b ≡ true)
      × (evaluate_expr s a.expr ≡ some true)
      × (evaluate_expr s b.expr ≡ some false)
unfolding evaluate_expr
expr_equal-confuses x y st s ne sx sy =
    let ne' : y ≢ x = λ e. ne (sym e) in
    (
      tabulated x y,
      tabulated y x,
      normalize-but_not x y st ne,
      normalize-but_not y x st ne',
      swapped-equal x y ne,
      rw (sx, sy) refl,
      rw (sx, sy) refl,
    )
