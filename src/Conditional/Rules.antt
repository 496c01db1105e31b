-- ===== src/Conditional/Rules.antt =====
-- The rules of a conditional node, libsepol/src/conditional.c: `evaluate_cond_node` turns them on and
-- off, and `cond_optimize` brings the type rules to the front.
pub mod Laws
pub mod Order
use ap_policy.Common.{
  ℕ, Bool, true, false, Option, none, some, List, [], ◌∷◌, ◌++◌, bit_and, bit_or, ◌==◌,
  if◌then◌else◌, ◌&&◌,
}
use ap_policy.Avtab.{enabled_bit, type_bits}
use ap_policy.Conditional.{State, evaluate_expr}
use ap_policy.Conditional.Node.{CondNode}

-- `key.specified` of the avtab node at an address
abbrev pub Specified : Type 0
Specified = ℕ → ℕ

-- `specified |= AVTAB_ENABLED` and `specified &= ~AVTAB_ENABLED` in 16 bits
pub turned : Bool → ℕ → ℕ
turned true specified = bit_or specified enabled_bit
turned false specified = bit_and specified 0x7fff

-- one of the two loops of `evaluate_cond_node`
pub turn_all : Bool → List ℕ → Specified → Specified
unfolding turned
turn_all on [] sp = sp
turn_all on (a ∷ rest) sp = turn_all on rest (λ b. if b == a then turned on (sp b) else sp b)

-- `new_state != node->cur_state`, and the tests of the loops for 1 and for 0
abbrev pub same_state : Option Bool → Option Bool → Bool
same_state none none = true
same_state none (some b) = false
same_state (some a) none = false
same_state (some true) (some b) = b
same_state (some false) (some true) = false
same_state (some false) (some false) = true

abbrev pub is_state : Bool → Option Bool → Bool
is_state side none = false
is_state true (some b) = b
is_state false (some true) = false
is_state false (some false) = true

pub evaluate_cond_node : State → CondNode → Specified → CondNode × Specified
unfolding turn_all
evaluate_cond_node st node sp =
    let new_state = evaluate_expr st node.expr in
    if same_state new_state node.cur_state then (node, sp) else (
      record node { cur_state = new_state },
      turn_all (is_state false new_state) node.false_list
          (turn_all (is_state true new_state) node.true_list sp),
    )

pub evaluate_conds : State → List CondNode → Specified → List CondNode × Specified
unfolding evaluate_cond_node
evaluate_conds st [] sp = ([], sp)
evaluate_conds st (node ∷ rest) sp =
    let (node', sp') = evaluate_cond_node st node sp in
    let (rest', sp'') = evaluate_conds st rest sp' in (node' ∷ rest', sp'')

-- `specified & AVTAB_TYPE`
abbrev pub is_type : Specified → ℕ → Bool
is_type sp a = if bit_and (sp a) type_bits == 0 then false else true

-- the loop of `cond_optimize`; the list from `top` to `p` is empty only at the start, where `top` is
-- `cur`
pub optimize_loop : Specified → List ℕ → List ℕ → List ℕ
optimize_loop sp front [] = front
optimize_loop sp [] (cur ∷ rest) = optimize_loop sp (cur ∷ []) rest
optimize_loop sp (top ∷ front) (cur ∷ rest) = elim (is_type sp cur) [
  | true ↦ optimize_loop sp (cur ∷ top ∷ front) rest
  | false ↦ optimize_loop sp (top ∷ front ++ (cur ∷ [])) rest
]

pub optimize : Specified → List ℕ → List ℕ
unfolding optimize_loop
optimize sp l = optimize_loop sp [] l

pub optimize_lists : Specified → List CondNode → List CondNode
unfolding optimize
optimize_lists sp [] = []
optimize_lists sp (n ∷ rest) =
    record n { true_list = optimize sp n.true_list; false_list = optimize sp n.false_list }
    ∷ optimize_lists sp rest
