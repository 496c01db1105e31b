-- ===== src/Conditional.antt =====
-- Conditional policy, libsepol/src/conditional.c: expressions in reverse polish notation over the
-- policy's booleans, and the rules that they turn on and off.
pub mod Tests
pub mod Rules
pub mod Node
pub mod Evaluate
use ap_policy.Common.{
  ℕ, Bool, true, false, Option, some, none, List, [], ◌∷◌, ltb, leb, ◌==◌, if◌then◌else◌, ◌&&◌,
  ◌||◌, not, xor, length, bit_and, bit_or, ◌-◌, ◌^◌,
}

-- `expr_type`; `other` stands for the numbers that are no COND_ constant
pub data ExprType : Type 0 where
  cond_bool cond_not cond_or cond_and cond_xor cond_eq cond_neq : ExprType
  other : ℕ → ExprType

pub record CondExpr : Type 0 where
  pub expr_type : ExprType
  pub boolean : ℕ

abbrev pub op : ExprType → CondExpr
op t = record { expr_type = t; boolean = 0 }

abbrev pub operand : ℕ → CondExpr
operand b = record { expr_type = cond_bool; boolean = b }

-- `p->bool_val_to_struct[b - 1]->state`, by the boolean's value; every state is 0 or 1
abbrev pub State : Type 0
State = ℕ → Bool

-- COND_EXPR_MAXDEPTH
abbrev pub maxdepth : ℕ
maxdepth = 10

pub same_truth : Bool → Bool → Bool
same_truth true b = b
same_truth false b = not b

-- an operator of two operands, on the two top cells
pub binary : (Bool → Bool → Bool) → List Bool → Option (List Bool)
binary f [] = none
binary f (y ∷ []) = none
binary f (y ∷ x ∷ s) = some (f x y ∷ s)

pub negate : List Bool → Option (List Bool)
negate [] = none
negate (x ∷ s) = some (not x ∷ s)

-- one round of the loop of `cond_evaluate_expr`; the stack, top first, holds `sp + 1` cells
pub step : State → List Bool → ExprType → ℕ → Option (List Bool)
unfolding binary negate same_truth
step st s cond_bool b = if length s == maxdepth then none else some (st b ∷ s)
step st s cond_not b = negate s
step st s cond_or b = binary ◌||◌ s
step st s cond_and b = binary ◌&&◌ s
step st s cond_xor b = binary xor s
step st s cond_eq b = binary same_truth s
step st s cond_neq b = binary (λ x y. not (same_truth x y)) s
step st s (other n) b = none

-- `s[0]`, the bottom cell, which is -1 before anything is pushed
pub bottom : List Bool → Option Bool
bottom [] = none
bottom (x ∷ []) = some x
bottom (x ∷ y ∷ s) = bottom (y ∷ s)

pub evaluate_loop : State → List Bool → List CondExpr → Option Bool
unfolding step bottom
evaluate_loop st s [] = bottom s
evaluate_loop st s (e ∷ es) = elim (step st s e.expr_type e.boolean) [
  | none ↦ none
  | some s' ↦ evaluate_loop st s' es
]

-- `cond_evaluate_expr`: `none` is the undefined result, -1
pub evaluate_expr : State → List CondExpr → Option Bool
unfolding evaluate_loop
evaluate_expr st expr = evaluate_loop st [] expr

-- `cond_copy_expr`
pub copy_expr : List CondExpr → List CondExpr
copy_expr [] = []
copy_expr (e ∷ es) = record { expr_type = e.expr_type; boolean = e.boolean } ∷ copy_expr es
