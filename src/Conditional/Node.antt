-- ===== src/Conditional/Node.antt =====
-- Conditional nodes, libsepol/src/conditional.c: `cond_normalize_expr`, which strips an outer negation
-- and tabulates the expression, and `cond_expr_equal`, which compares two nodes.
pub mod Restore
pub mod Normalize
pub mod Equal
use ap_policy.Common.{
  ℕ, zero, suc, ◌+◌, ◌^◌, Bool, true, false, Option, some, none, List, [], ◌∷◌, ◌++◌, map, ltb, leb,
  ◌==◌, if◌then◌else◌, ◌&&◌, ◌||◌, bit_or,
}
use ap_policy.Common.Bits.{test_bit}
use ap_policy.Conditional.{
  ExprType, cond_bool, cond_not, cond_or, cond_and, cond_xor, cond_eq, cond_neq, other, CondExpr,
  State, evaluate_expr,
}

-- COND_MAX_BOOLS
abbrev pub max_bools : ℕ
max_bools = 5

-- `true_list` and `false_list` hold the addresses of the avtab nodes that they point to, and
-- `avtrue_list` and `avfalse_list` those of rules; `bool_ids` has the entries of the array that are
-- filled, and `none` stands for the state -1
pub record CondNode : Type 0 where
  pub cur_state : Option Bool
  pub expr : List CondExpr
  pub true_list : List ℕ
  pub false_list : List ℕ
  pub avtrue_list : List ℕ
  pub avfalse_list : List ℕ
  pub nbools : ℕ
  pub bool_ids : List ℕ
  pub expr_pre_comp : ℕ
  pub flags : ℕ

pub present_below : ℕ → List ℕ → ℕ → Bool
present_below target bools zero = false
present_below target [] (suc n) = false
present_below target (b ∷ bools) (suc n) = target == b || present_below target bools n

pub bool_present : ℕ → List ℕ → ℕ → Bool
unfolding present_below
bool_present target bools num_bools =
    if ltb max_bools num_bools then false else present_below target bools num_bools

-- the loop of `same_bools`
pub all_present : ℕ → List ℕ → List ℕ → ℕ → Bool
unfolding bool_present
all_present zero ids bools x = true
all_present (suc i) [] bools x = true
all_present (suc i) (b ∷ ids) bools x = bool_present b bools x && all_present i ids bools x

pub same_bools : CondNode → CondNode → Bool
unfolding all_present
same_bools a b =
    if a.nbools == b.nbools then all_present a.nbools a.bool_ids b.bool_ids a.nbools else false

-- the number in `expr_type`
pub type_code : ExprType → ℕ
type_code cond_bool = 1
type_code cond_not = 2
type_code cond_or = 3
type_code cond_and = 4
type_code cond_xor = 5
type_code cond_eq = 6
type_code cond_neq = 7
type_code (other zero) = 0
type_code (other (suc n)) = n + 8

-- one round of the comparison of long expressions
pub same_expr : CondExpr → CondExpr → Bool
unfolding type_code
same_expr a b =
    if type_code a.expr_type == type_code b.expr_type
    then (if type_code a.expr_type == 1 then a.boolean == b.boolean else true)
    else false

pub same_exprs : List CondExpr → List CondExpr → Bool
unfolding same_expr
same_exprs [] [] = true
same_exprs [] (b ∷ bs) = false
same_exprs (a ∷ es) [] = false
same_exprs (a ∷ es) (b ∷ bs) = same_expr a b && same_exprs es bs

-- `cond_expr_equal`, of two nodes that are not NULL
pub expr_equal : CondNode → CondNode → Bool
unfolding same_bools same_exprs
expr_equal a b =
    if a.nbools == b.nbools
    then (if leb a.nbools max_bools && leb b.nbools max_bools
        then (if same_bools a b then a.expr_pre_comp == b.expr_pre_comp else false)
        else same_exprs a.expr b.expr)
    else false

-- the search of `cond_node_find`; `none` means that a node is made
pub node_find : CondNode → List CondNode → Option CondNode
unfolding expr_equal
node_find needle [] = none
node_find needle (n ∷ haystack) = if expr_equal needle n then some n else node_find needle haystack

abbrev pub is_not : ExprType → Bool
is_not cond_not = true
is_not _ = false

-- the last element of the expression, and the others
pub last_expr : CondExpr → List CondExpr → CondExpr
last_expr e [] = e
last_expr e (e' ∷ es) = last_expr e' es

pub drop_last : CondExpr → List CondExpr → List CondExpr
drop_last e [] = []
drop_last e (e' ∷ es) = e ∷ drop_last e' es

-- one round of the search for booleans: the ids recorded, and their count
pub see_bool : CondExpr → List ℕ × ℕ → List ℕ × ℕ
unfolding bool_present
see_bool e (ids, n) = elim e.expr_type [
  | cond_bool ↦
      if bool_present e.boolean ids n
      then (ids, n)
      else (if ltb n max_bools then (ids ++ (e.boolean ∷ []), n + 1) else (ids, n + 1))
  | _ ↦ (ids, n)
]

pub find_bools : List CondExpr → List ℕ × ℕ → List ℕ × ℕ
unfolding see_bool
find_bools [] found = found
find_bools (e ∷ es) found = find_bools es (see_bool e found)

pub update : State → ℕ → Bool → State
update st id v b = if b == id then v else st b

-- the booleans get the bits of `test`, from bit `j` on
pub assign : List ℕ → ℕ → ℕ → State → State
unfolding update
assign [] test j st = st
assign (id ∷ ids) test j st = assign ids test (j + 1) (update st id (test_bit test j))

-- the loop over all combinations: `none` is an undefined result; the states stay as they are then
pub precompute : ℕ → ℕ → State → List ℕ → List CondExpr → ℕ → Option ℕ × State
unfolding assign
precompute zero test st ids expr table = (some table, st)
precompute (suc rounds) test st ids expr table =
    let st' = assign ids test 0 st in
    elim (evaluate_expr st' expr) [
      | none ↦ (none, st')
      | some k ↦
          precompute rounds (test + 1) st' ids expr (if k then bit_or table (2 ^ test) else table)
    ]

pub restore : List ℕ → List Bool → State → State
unfolding update
restore [] values st = st
restore (id ∷ ids) [] st = st
restore (id ∷ ids) (v ∷ values) st = restore ids values (update st id v)

-- what a call leaves: the node and the states of the booleans, with return value 0 or -1; `crashed`
-- is the read through NULL at an empty expression
pub data Outcome : Type 0 where
  normalized : CondNode → State → Outcome
  failed : CondNode → State → Outcome
  crashed : Outcome

-- the node of a call that succeeds
abbrev pub node_of : Outcome → Option CondNode
node_of (normalized cn st) = some cn
node_of (failed cn st) = none
node_of crashed = none

-- the part of `cond_normalize_expr` behind the treatment of a negation
pub tabulate : State → CondNode → Outcome
unfolding find_bools precompute restore
tabulate st cn =
    let (ids, n) = find_bools cn.expr ([], 0) in
    let cn' = record cn { nbools = n; bool_ids = ids; expr_pre_comp = 0 } in
    if leb n max_bools
    then (let (result, st') = precompute (2 ^ n) 0 st ids cn.expr 0 in
        elim result [
          | none ↦ failed cn' st'
          | some table ↦
              normalized (record cn' { expr_pre_comp = table }) (restore ids (map st ids) st')
        ])
    else normalized cn' st

pub cleared : CondNode → CondNode
cleared cn = record cn { nbools = 0; bool_ids = []; expr_pre_comp = 0 }

-- the node without its outer negation, with the lists exchanged
pub flipped : CondNode → List CondExpr → CondNode
flipped cn expr = record cn {
  expr = expr;
  true_list = cn.false_list;
  false_list = cn.true_list;
  avtrue_list = cn.avfalse_list;
  avfalse_list = cn.avtrue_list;
}

-- `cond_normalize_expr` on a node with the expression given
pub normalize_cases : State → CondNode → List CondExpr → Outcome
unfolding last_expr drop_last tabulate cleared flipped
normalize_cases st cn [] = crashed
normalize_cases st cn (e ∷ []) =
    if is_not e.expr_type then failed (cleared cn) st else tabulate st cn
normalize_cases st cn (e ∷ e' ∷ es) =
    if is_not (last_expr e' es).expr_type
    then tabulate st (flipped cn (e ∷ drop_last e' es))
    else tabulate st cn

pub normalize_expr : State → CondNode → Outcome
unfolding normalize_cases
normalize_expr st cn = normalize_cases st cn cn.expr
