-- ===== src/Conditional/Rules/Laws.antt =====
-- The rules that `evaluate_conds` turns on.
use ap_policy.Common.{
  ℕ, ◌≡◌, refl, sym, ap, ◌∙◌, Bool, true, false, Option, none, some, List, [], ◌∷◌, ◌++◌,
  Bool-cases, inl, inr, arith, ◌==◌, ◌||◌, ◌&&◌, not,
}
use ap_policy.Common.Bits.{test_bit, test_bit-and, test_bit-or}
use ap_policy.Conditional.{State, evaluate_expr}
use ap_policy.Conditional.Node.{CondNode}
use ap_policy.Conditional.Node.Restore.{listed}
use ap_policy.Conditional.Rules.{
  Specified, turned, turn_all, same_state, is_state, evaluate_cond_node, evaluate_conds,
}

-- the bit AVTAB_ENABLED
abbrev pub enabled : ℕ → Bool
enabled specified = test_bit specified 15

enabled-turned : (on : Bool) (s : ℕ) → enabled (turned on s) ≡ on
unfolding turned test_bit
enabled-turned true s = test_bit-or s 0x8000 15 ∙ or_true (test_bit s 15)
  where
    or_true : (b : Bool) → (b || true) ≡ true
    or_true true = refl
    or_true false = refl
enabled-turned false s = test_bit-and s 0x7fff 15 ∙ and_false (test_bit s 15)
  where
    and_false : (b : Bool) → (b && false) ≡ false
    and_false true = refl
    and_false false = refl

turn_all_absent :
    (on : Bool) (l : List ℕ) (sp : Specified) (a : ℕ)
    → listed a l ≡ false
    → turn_all on l sp a ≡ sp a
unfolding turn_all
turn_all_absent on [] sp a h = refl
turn_all_absent on (b ∷ l) sp a h =
    let other : (a == b) ≡ false = ground arith in
    turn_all_absent on l _ a (ground arith) ∙ rw other refl

-- a rule of the list is on or off afterwards as asked, however often it stands in the list
turn_all-enabled :
    (on : Bool) (l : List ℕ) (sp : Specified) (a : ℕ)
    → listed a l ≡ true
    → enabled (turn_all on l sp a) ≡ on
unfolding turn_all
turn_all-enabled on [] sp a h = cc
turn_all-enabled on (b ∷ l) sp a h = elim (Bool-cases (listed a l)) [
  | inl again ↦ turn_all-enabled on l _ a again
  | inr last ↦
      let here : (a == b) ≡ true = ground arith in
      ap enabled (turn_all_absent on l _ a last) ∙ rw here (enabled-turned on (sp a))
]

same_state-eq : (a b : Option Bool) → same_state a b ≡ true → a ≡ b
same_state-eq none none h = refl
same_state-eq none (some b) h = cc
same_state-eq (some a) none h = cc
same_state-eq (some true) (some true) h = refl
same_state-eq (some true) (some false) h = cc
same_state-eq (some false) (some true) h = cc
same_state-eq (some false) (some false) h = refl

-- the list whose rules are on in a state
abbrev pub rules_of : Bool → CondNode → List ℕ
rules_of true node = node.true_list
rules_of false node = node.false_list

node-enabled :
    (side : Bool) (st : State) (node : CondNode) (sp : Specified) (a : ℕ)
    → listed a (rules_of side node) ≡ true
    → listed a (rules_of (not side) node) ≡ false
    → enabled (sp a) ≡ is_state side node.cur_state
    → enabled ((evaluate_cond_node st node sp).1 a) ≡ is_state side (evaluate_expr st node.expr)
unfolding evaluate_cond_node
node-enabled side st node sp a inside outside before =
    let new_state = evaluate_expr st node.expr in
    elim (Bool-cases (same_state new_state node.cur_state)) [
      | inl same ↦
          rw (same, evaluate_cond_node)
            (before ∙ ap (is_state side) (sym (same_state-eq new_state node.cur_state same)))
      | inr changed ↦ rw (changed, evaluate_cond_node) (turns side inside outside)
    ]
  where
    turns :
        (s : Bool)
        → listed a (rules_of s node) ≡ true
        → listed a (rules_of (not s) node) ≡ false
        → enabled (
            turn_all
              (is_state false (evaluate_expr st node.expr))
              node.false_list
              (turn_all (is_state true (evaluate_expr st node.expr)) node.true_list sp)
              a)
          ≡ is_state s (evaluate_expr st node.expr)
    turns true within without =
        ap enabled (turn_all_absent _ node.false_list _ a without)
        ∙ turn_all-enabled _ node.true_list sp a within
    turns false within without = turn_all-enabled _ node.false_list _ a within

abbrev pub mentioned : ℕ → List CondNode → Bool
mentioned a [] = false
mentioned a (node ∷ rest) =
    (listed a node.true_list || listed a node.false_list) || mentioned a rest

node_absent :
    (st : State) (node : CondNode) (sp : Specified) (a : ℕ)
    → listed a node.true_list ≡ false
    → listed a node.false_list ≡ false
    → (evaluate_cond_node st node sp).1 a ≡ sp a
unfolding evaluate_cond_node
node_absent st node sp a t f =
    let new_state = evaluate_expr st node.expr in
    elim (Bool-cases (same_state new_state node.cur_state)) [
      | inl same ↦ rw (same, evaluate_cond_node) refl
      | inr changed ↦
          rw (changed, evaluate_cond_node)
            (turn_all_absent _ node.false_list _ a f ∙ turn_all_absent _ node.true_list sp a t)
    ]

-- a rule that no node mentions stays as it is
pub evaluate_conds_absent :
    (st : State) (nodes : List CondNode) (sp : Specified) (a : ℕ)
    → mentioned a nodes ≡ false
    → (evaluate_conds st nodes sp).1 a ≡ sp a
unfolding evaluate_conds
evaluate_conds_absent st [] sp a h = refl
evaluate_conds_absent st (node ∷ rest) sp a h =
    evaluate_conds_absent st rest (evaluate_cond_node st node sp).1 a (ground arith)
    ∙ node_absent st node sp a (ground arith) (ground arith)

-- `evaluate_conds` turns a rule on exactly when the expression of its node evaluates to the rule's
-- side, so an undefined expression turns it off: for a rule that stands in one list of one node only,
-- and that was on or off as that node's old state asks.
pub evaluate_conds-enabled :
    (side : Bool) (st : State) (front : List CondNode) (node : CondNode) (back : List CondNode)
    (sp : Specified) (a : ℕ)
    → mentioned a front ≡ false
    → mentioned a back ≡ false
    → listed a (rules_of side node) ≡ true
    → listed a (rules_of (not side) node) ≡ false
    → enabled (sp a) ≡ is_state side node.cur_state
    → enabled ((evaluate_conds st (front ++ (node ∷ back)) sp).1 a)
      ≡ is_state side (evaluate_expr st node.expr)
unfolding evaluate_conds
evaluate_conds-enabled side st [] node back sp a f b inside outside before =
    ap enabled (evaluate_conds_absent st back (evaluate_cond_node st node sp).1 a b)
    ∙ node-enabled side st node sp a inside outside before
evaluate_conds-enabled side st (n ∷ front) node back sp a f b inside outside before =
    let kept : (evaluate_cond_node st n sp).1 a ≡ sp a =
      node_absent st n sp a (ground arith) (ground arith) in
    evaluate_conds-enabled side st front node back (evaluate_cond_node st n sp).1 a (ground arith) b
      inside outside (ap enabled kept ∙ before)
