-- ===== src/Conditional/Evaluate.antt =====
-- `cond_evaluate_expr` computes the value of the formula that the expression is the postfix form of.
use ap_policy.Common.{
  ℕ, ◌+◌, ◌≤◌, ◌≡◌, refl, ap, ◌∙◌, Bool, some, none, List, [], ◌∷◌, ◌++◌, arith, leb, if◌then◌else◌,
  ◌&&◌, ◌||◌, not, xor, length, max, inl, inr, Bool-cases,
}
use mathlib.Core.List.{append_assoc, append-nil}
use ap_policy.Conditional.{
  ExprType, cond_not, cond_or, cond_and, cond_xor, cond_eq, cond_neq, CondExpr, op, operand, State,
  maxdepth, same_truth, evaluate_loop, evaluate_expr, copy_expr,
}

-- the operators of two operands
pub data Connective : Type 0 where
  disjunction conjunction exclusion agreement difference : Connective

abbrev pub type_of : Connective → ExprType
type_of disjunction = cond_or
type_of conjunction = cond_and
type_of exclusion = cond_xor
type_of agreement = cond_eq
type_of difference = cond_neq

abbrev pub truth : Connective → Bool → Bool → Bool
truth disjunction = ◌||◌
truth conjunction = ◌&&◌
truth exclusion = xor
truth agreement = same_truth
truth difference = λ x y. not (same_truth x y)

-- a condition as it is written in a policy
pub data Formula : Type 0 where
  var : ℕ → Formula
  neg : Formula → Formula
  join : Connective → Formula → Formula → Formula

unfoldable pub value : State → Formula → Bool
value st (var b) = st b
value st (neg f) = not (value st f)
value st (join c f g) = truth c (value st f) (value st g)

unfoldable pub postfix : Formula → List CondExpr
postfix (var b) = operand b ∷ []
postfix (neg f) = postfix f ++ (op cond_not ∷ [])
postfix (join c f g) = postfix f ++ (postfix g ++ (op (type_of c) ∷ []))

-- the cells of the stack that the formula needs
unfoldable pub cells : Formula → ℕ
cells (var b) = 1
cells (neg f) = cells f
cells (join c f g) = max (cells f) (cells g + 1)

join_step :
    (c : Connective) (st : State) (s : List Bool) (x y : Bool) (rest : List CondExpr)
    → evaluate_loop st (y ∷ x ∷ s) (op (type_of c) ∷ rest) ≡ evaluate_loop st (truth c x y ∷ s) rest
unfolding evaluate_loop
join_step disjunction st s x y rest = refl
join_step conjunction st s x y rest = refl
join_step exclusion st s x y rest = refl
join_step agreement st s x y rest = refl
join_step difference st s x y rest = refl

cells-pos : (f : Formula) → 1 ≤ cells f
unfolding cells
cells-pos (var b) = omega arith
cells-pos (neg f) = cells-pos f
cells-pos (join c f g) = omega (arith, cells-pos f)

-- a formula's postfix form leaves its value on the stack, or runs out of cells
loop-postfix :
    (f : Formula) (st : State) (s : List Bool) (rest : List CondExpr)
    → length s ≤ maxdepth
    → evaluate_loop st s (postfix f ++ rest)
      ≡ (if leb (length s + cells f) maxdepth then evaluate_loop st (value st f ∷ s) rest else none)
unfolding value postfix cells
loop-postfix (var b) st s rest h = unfold evaluate_loop in ground arith
loop-postfix (neg f) st s rest h =
    rw append_assoc (loop-postfix f st s (op cond_not ∷ rest) h ∙ unfold evaluate_loop in refl)
loop-postfix (join c f g) st s rest h =
    let last = op (type_of c) in
    let regroup : postfix f ++ (postfix g ++ (last ∷ [])) ++ rest
        ≡ postfix f ++ (postfix g ++ (last ∷ rest)) =
      append_assoc (postfix f) (postfix g ++ (last ∷ [])) rest
      ∙ ap (λ es. postfix f ++ es) (append_assoc (postfix g) (last ∷ []) rest) in
    rw (regroup, loop-postfix f st s (postfix g ++ (last ∷ rest)) h)
      (elim (Bool-cases (leb (length s + cells f) maxdepth)) [
        | inr deep ↦ rw deep (ground arith)
        | inl fits ↦
            let room : length s + 1 ≤ maxdepth = ground (arith, cells-pos f) in
            rw
              (
                fits,
                loop-postfix g st (value st f ∷ s) (last ∷ rest) (omega arith),
                join_step c st s (value st f) (value st g) rest,
              )
              (ground arith)
      ])

loop_end : (st : State) (b : Bool) → evaluate_loop st (b ∷ []) [] ≡ some b
unfolding evaluate_loop
loop_end st b = refl

-- `cond_evaluate_expr` on the postfix form of a formula returns the formula's value when the formula
-- needs at most COND_EXPR_MAXDEPTH cells of the stack, and is undefined when it needs more.
pub evaluate_expr-postfix :
    (f : Formula) (st : State)
    → evaluate_expr st (postfix f) ≡ (if leb (cells f) maxdepth then some (value st f) else none)
unfolding evaluate_expr
evaluate_expr-postfix f st =
    let run = loop-postfix f st [] [] (omega arith) in
    let zero_cells : 0 + cells f ≡ cells f = omega arith in
    (rw (append-nil, zero_cells, loop_end) at run)

copy_expr_lem : (es : List CondExpr) → copy_expr es ≡ es
unfolding copy_expr
copy_expr_lem [] = refl
copy_expr_lem (e ∷ es) = rw (copy_expr_lem es) refl

-- The copy that `cond_copy_expr` makes has the value of the original in every state.
pub evaluate_expr-copy :
    (es : List CondExpr) (st : State) → evaluate_expr st (copy_expr es) ≡ evaluate_expr st es
evaluate_expr-copy es st = ap (evaluate_expr st) (copy_expr_lem es)
