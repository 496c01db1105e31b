-- ===== src/Security/Constraint.antt =====
-- Constraint expressions, include/sepol/policydb/constraint.h and `constraint_expr_eval_reason` of
-- libsepol/src/services.c without the text that it builds for people.
pub mod Postfix
mod Tests
use ap_policy.Common.{
  ℕ, ◌+◌, ◌-◌, ◌%◌, ◌^◌, Bool, true, false, Option, some, none, List, [], ◌∷◌, ◌==◌, if◌then◌else◌,
  ◌&&◌, ◌||◌, not, length, bit_and,
}
use ap_policy.Ebitmap.{Ebitmap, get_bit}
use ap_policy.Mls.{Context, Level, level_eq, level_dom, level_incomp}

-- `expr_type`; `other` stands for the numbers that are no such constant
pub data ExprType : Type 0 where
  cexpr_not cexpr_and cexpr_or cexpr_attr cexpr_names : ExprType
  other : ℕ → ExprType

pub record ConstraintExpr : Type 0 where
  pub expr_type : ExprType
  pub attr : ℕ
  pub op : ℕ
  pub names : Ebitmap

-- `permissions`, and the list that `expr` leads to
pub record ConstraintNode : Type 0 where
  pub permissions : ℕ
  pub expr : List ConstraintExpr

-- CEXPR_MAXDEPTH
abbrev pub maxdepth : ℕ
maxdepth = 5

-- CEXPR_EQ and the other operators
abbrev pub op_eq : ℕ
op_eq = 1

abbrev pub op_neq : ℕ
op_neq = 2

abbrev pub op_dom : ℕ
op_dom = 3

abbrev pub op_domby : ℕ
op_domby = 4

abbrev pub op_incomp : ℕ
op_incomp = 5

-- CEXPR_USER and the other attributes
abbrev pub attr_user : ℕ
attr_user = 1

abbrev pub attr_role : ℕ
attr_role = 2

abbrev pub attr_type : ℕ
attr_type = 4

abbrev pub attr_target : ℕ
attr_target = 8

abbrev pub attr_xtarget : ℕ
attr_xtarget = 16

-- `val - 1` of a uint32_t
abbrev pub index : ℕ → ℕ
index val = (val + 2 ^ 32 - 1) % 2 ^ 32

-- the value of a test, or none where the source reports a bug
pub mls_op : ℕ → Level → Level → Option Bool
mls_op op l1 l2 =
    if op == op_eq
    then some (level_eq l1 l2)
    else if op == op_neq
    then some (not (level_eq l1 l2))
    else if op == op_dom
    then some (level_dom l1 l2)
    else if op == op_domby
    then some (level_dom l2 l1)
    else if op == op_incomp
    then some (level_incomp l2 l1)
    else none

pub value_op : ℕ → ℕ → ℕ → Option Bool
value_op op val1 val2 =
    if op == op_eq
    then some (val1 == val2)
    else if op == op_neq
    then some (not (val1 == val2))
    else none

pub has_attr : ℕ → ℕ → Bool
has_attr attr bits = not (bit_and attr bits == 0)

-- a name in the set of an expression
pub names_op : ℕ → Ebitmap → ℕ → Option Bool
names_op op names val =
    if op == op_eq
    then some (get_bit names (index val))
    else if op == op_neq
    then some (not (get_bit names (index val)))
    else none

-- what the evaluation is given: the roles that a role dominates, by its value, and the contexts
pub record Env : Type 0 where
  pub dominates : ℕ → Ebitmap
  pub scontext : Context
  pub tcontext : Context
  pub xcontext : Option Context

pub role_op : (ℕ → Ebitmap) → ℕ → ℕ → ℕ → Option Bool
unfolding value_op
role_op dominates op val1 val2 =
    let down = get_bit (dominates val1) (index val2) in
    let up = get_bit (dominates val2) (index val1) in
    if op == op_dom
    then some down
    else if op == op_domby
    then some up
    else if op == op_incomp
    then some (not down && not up)
    else value_op op val1 val2

-- the case CEXPR_ATTR; the numbers are CEXPR_L1L2, CEXPR_L1H2, CEXPR_H1L2, CEXPR_H1H2, CEXPR_L1H1, CEXPR_L2H2
pub attr_value : Env → ℕ → ℕ → Option Bool
unfolding mls_op value_op role_op
attr_value env attr op =
    let s = env.scontext in
    let t = env.tcontext in
    if attr == attr_user
    then value_op op s.user t.user
    else if attr == attr_type
    then value_op op s.type t.type
    else if attr == attr_role
    then role_op env.dominates op s.role t.role
    else if attr == 32
    then mls_op op s.range.low t.range.low
    else if attr == 64
    then mls_op op s.range.low t.range.high
    else if attr == 128
    then mls_op op s.range.high t.range.low
    else if attr == 256
    then mls_op op s.range.high t.range.high
    else if attr == 512
    then mls_op op s.range.low s.range.high
    else if attr == 1024
    then mls_op op t.range.low t.range.high
    else none

-- the context whose name is tested
pub named_context : Env → ℕ → Option Context
unfolding has_attr
named_context env attr =
    if has_attr attr attr_target
    then some env.tcontext
    else if has_attr attr attr_xtarget
    then env.xcontext
    else some env.scontext

-- the value whose name is tested
pub named_value : Context → ℕ → Option ℕ
unfolding has_attr
named_value c attr =
    if has_attr attr attr_user
    then some c.user
    else if has_attr attr attr_role
    then some c.role
    else if has_attr attr attr_type
    then some c.type
    else none

-- the case CEXPR_NAMES
pub names_value : Env → ℕ → ℕ → Ebitmap → Option Bool
unfolding named_context named_value names_op
names_value env attr op names = elim (named_context env attr) [
  | none ↦ none
  | some c ↦ elim (named_value c attr) [ none ↦ none | some val ↦ names_op op names val ]
]

-- the return value: 0, 1, and -EINVAL
pub data Verdict : Type 0 where
  denied granted failed : Verdict

abbrev pub verdict : Bool → Verdict
verdict true = granted
verdict false = denied

-- a round of the loop ends the evaluation, or leaves a stack, top first
pub data Next : Type 0 where
  stop : Verdict → Next
  go : List Bool → Next

-- a test pushed, with the depth of the stack checked first
pub push : List Bool → Option Bool → Next
push s value =
    if length s == maxdepth
    then stop denied
    else elim value [ none ↦ stop denied | some b ↦ go (b ∷ s) ]

pub step : Env → List Bool → ConstraintExpr → ExprType → Next
unfolding push attr_value names_value
step env [] e cexpr_not = stop failed
step env (x ∷ s) e cexpr_not = go (not x ∷ s)
step env (y ∷ x ∷ s) e cexpr_and = go ((x && y) ∷ s)
step env s e cexpr_and = stop failed
step env (y ∷ x ∷ s) e cexpr_or = go ((x || y) ∷ s)
step env s e cexpr_or = stop failed
step env s e cexpr_attr = push s (attr_value env e.attr e.op)
step env s e cexpr_names = push s (names_value env e.attr e.op e.names)
step env s e (other n) = stop denied

-- `s[0]`, the bottom cell of an array that starts with zeros
pub bottom : List Bool → Bool
bottom [] = false
bottom (x ∷ []) = x
bottom (x ∷ y ∷ s) = bottom (y ∷ s)

pub evaluate_loop : Env → List Bool → List ConstraintExpr → Verdict
unfolding step bottom
evaluate_loop env s [] = verdict (bottom s)
evaluate_loop env s (e ∷ es) = elim (step env s e e.expr_type) [
  | stop v ↦ v
  | go s' ↦ evaluate_loop env s' es
]

pub evaluate : Env → List ConstraintExpr → Verdict
unfolding evaluate_loop
evaluate env expr = evaluate_loop env [] expr
