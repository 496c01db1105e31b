-- ===== src/Conditional/Node/Normalize.antt =====
-- `cond_normalize_expr` on the postfix form of a formula.
use ap_policy.Common.{
  ℕ, zero, suc, ◌+◌, ◌≤◌, ◌≡◌, refl, sym, ap, ◌∙◌, Bool, true, false, Option, some, none, List, [],
  ◌∷◌, ◌++◌, leb, if◌then◌else◌, inl, inr, Bool-cases, arith, ◌^◌, not,
}
use ap_policy.Conditional.{CondExpr, State, op, operand, cond_not, evaluate_expr, maxdepth}
use mathlib.Core.List.{append_assoc}
use ap_policy.Conditional.Evaluate.{
  Formula, Connective, disjunction, conjunction, exclusion, agreement, difference, var, neg, join,
  type_of, value, postfix, cells, evaluate_expr-postfix,
}
use ap_policy.Conditional.Node.{
  CondNode, normalized, find_bools, assign, precompute, tabulate, is_not, last_expr, drop_last,
  flipped, normalize_cases, normalize_expr, max_bools,
}
use ap_policy.Conditional.Node.Restore.{tabulate-Tabulated}

pub pick : Option Bool → List ℕ → List ℕ → Option (List ℕ)
pick none ts fs = none
pick (some true) ts fs = some ts
pick (some false) ts fs = some fs

-- the list whose rules the node turns on
pub active : State → CondNode → Option (List ℕ)
unfolding pick
active st cn = pick (evaluate_expr st cn.expr) cn.true_list cn.false_list

pick-not : (b : Bool) (ts fs : List ℕ) → pick (some b) fs ts ≡ pick (some (not b)) ts fs
unfolding pick
pick-not true ts fs = refl
pick-not false ts fs = refl

-- the call succeeds, keeps every state, and keeps the list that is turned on in every state
pub record Normal (st : State) (cn cn' : CondNode) (st' : State) : Type 0 where
  pub restored : (b : ℕ) → st' b ≡ st b
  pub same_active : (s : State) → active s cn' ≡ active s cn

precompute_total :
    (rounds test : ℕ) (st : State) (ids : List ℕ) (expr : List CondExpr) (table : ℕ)
    → ((s : State) → ((k : Bool) × evaluate_expr s expr ≡ some k))
    → ((t : ℕ) × (precompute rounds test st ids expr table).0 ≡ some t)
unfolding precompute
precompute_total zero test st ids expr table total = (table, refl)
precompute_total (suc rounds) test st ids expr table total =
    let st' = assign ids test 0 st in
    let (k, done) = total st' in
    rw (done, precompute) (precompute_total rounds (test + 1) st' ids expr _ total)

tabulate_total :
    (st : State) (cn : CondNode)
    → ((s : State) → ((k : Bool) × evaluate_expr s cn.expr ≡ some k))
    → ((cn' : CondNode) × (st' : State) × (tabulate st cn ≡ normalized cn' st'))
unfolding tabulate
tabulate_total st cn total =
    let (ids, n) = find_bools cn.expr ([], 0) in
    elim (Bool-cases (leb n max_bools)) [
      | inr long ↦ rw long (_, _, refl)
      | inl short ↦
          let (t, done) = precompute_total (2 ^ n) 0 st ids cn.expr 0 total in
          rw (short, tabulate, done) (_, _, refl)
    ]

postfix-cons : (f : Formula) → ((e : CondExpr) × (es : List CondExpr) × (postfix f ≡ e ∷ es))
unfolding postfix
postfix-cons (var b) = (_, _, refl)
postfix-cons (neg f) = let (e, es, h) = postfix-cons f in rw h (_, _, refl)
postfix-cons (join c f g) = let (e, es, h) = postfix-cons f in rw h (_, _, refl)

last_expr-snoc :
    (e : CondExpr) (es : List CondExpr) (x : CondExpr) → last_expr e (es ++ (x ∷ [])) ≡ x
unfolding last_expr
last_expr-snoc e [] x = refl
last_expr-snoc e (y ∷ es) x = last_expr-snoc y es x

drop_last-snoc :
    (e : CondExpr) (es : List CondExpr) (x : CondExpr) → drop_last e (es ++ (x ∷ [])) ≡ e ∷ es
unfolding drop_last
drop_last-snoc e [] x = refl
drop_last-snoc e (y ∷ es) x = rw (drop_last-snoc y es x) refl

normalize_cases-two :
    (st : State) (cn : CondNode) (e e' : CondExpr) (es : List CondExpr)
    → normalize_cases st cn (e ∷ e' ∷ es) ≡ (
        if is_not (last_expr e' es).expr_type
        then tabulate st (flipped cn (e ∷ drop_last e' es))
        else tabulate st cn)
unfolding normalize_cases
normalize_cases-two st cn e e' es = refl

last_expr-one : (e : CondExpr) → last_expr e [] ≡ e
unfolding last_expr
last_expr-one e = refl

drop_last-one : (e : CondExpr) → drop_last e [] ≡ []
unfolding drop_last
drop_last-one e = refl

normalize_cases-snoc :
    (st : State) (cn : CondNode) (e : CondExpr) (es : List CondExpr) (x : CondExpr)
    → normalize_cases st cn (e ∷ es ++ (x ∷ []))
      ≡ (if is_not x.expr_type then tabulate st (flipped cn (e ∷ es)) else tabulate st cn)
normalize_cases-snoc st cn e [] x = rw (normalize_cases-two, last_expr-one, drop_last-one) refl
normalize_cases-snoc st cn e (y ∷ es) x =
    rw (normalize_cases-two, last_expr-snoc y es x, drop_last-snoc y es x) refl

-- the tabulation keeps the expression and the lists
tabulate-Normal :
    (st : State) (cn cn' : CondNode) (st' : State)
    → tabulate st cn ≡ normalized cn' st'
    → Normal st cn cn' st'
unfolding active
tabulate-Normal st cn cn' st' h =
    let t = tabulate-Tabulated st cn cn' st' h in
    record { restored = t.restored; same_active = λ s. rw (t.expr, t.lists.0, t.lists.1) refl }

-- the node without its negation turns on the same list
flipped-active :
    (f : Formula) (cn : CondNode) (s : State)
    → cn.expr ≡ postfix (neg f)
    → cells f ≤ maxdepth
    → active s (flipped cn (postfix f)) ≡ active s cn
unfolding active flipped value cells
flipped-active f cn s is fits =
    let b : leb (cells f) maxdepth ≡ true = ground arith in
    let inner : evaluate_expr s (postfix f) ≡ some (value s f) =
      rw (evaluate_expr-postfix, b) refl in
    let outer : evaluate_expr s (postfix (neg f)) ≡ some (not (value s f)) =
      evaluate_expr-postfix (neg f) s ∙ rw b refl in
    let whole : evaluate_expr s cn.expr ≡ some (not (value s f)) =
      ap (evaluate_expr s) is ∙ outer in
    ap (λ r. pick r cn.false_list cn.true_list) inner
    ∙ pick-not (value s f) cn.true_list cn.false_list
    ∙ ap (λ r. pick r cn.true_list cn.false_list) (sym whole)

kept : (c : Connective) → is_not (op (type_of c)).expr_type ≡ false
kept disjunction = refl
kept conjunction = refl
kept exclusion = refl
kept agreement = refl
kept difference = refl

module _ (st : State) (cn : CondNode) where
  Normalizes : Type 0
  Normalizes =
      (cn' : CondNode) × (st' : State) × (normalize_expr st cn ≡ normalized cn' st')
      × Normal st cn cn' st'

  defined :
      (f : Formula) (expr : List CondExpr)
      → expr ≡ postfix f
      → cells f ≤ maxdepth
      → (s : State) → ((k : Bool) × evaluate_expr s expr ≡ some k)
  defined f expr is fits s =
      let b : leb (cells f) maxdepth ≡ true = ground arith in
      rw (is, evaluate_expr-postfix, b) (value s f, refl)

  keeps :
      (f : Formula)
      → cn.expr ≡ postfix f
      → cells f ≤ maxdepth
      → normalize_expr st cn ≡ tabulate st cn
      → Normalizes
  unfolding Normalizes
  keeps f is fits same =
      let (cn', st', h) = tabulate_total st cn (defined f cn.expr is fits) in
      (cn', st', same ∙ h, tabulate-Normal st cn cn' st' h)

  strips : (f : Formula) → cn.expr ≡ postfix (neg f) → cells f ≤ maxdepth → Normalizes
  unfolding Normalizes postfix normalize_expr
  strips f is fits =
      let (e, es, h) = postfix-cons f in
      let flip = flipped cn (postfix f) in
      let (cn', st', t) = tabulate_total st flip (defined f (postfix f) refl fits) in
      let n = tabulate-Normal st flip cn' st' t in
      let start : normalize_cases st cn cn.expr ≡ tabulate st flip =
        ap (normalize_cases st cn) (is ∙ ap (λ z. z ++ (op cond_not ∷ [])) h)
        ∙ normalize_cases-snoc st cn e es (op cond_not)
        ∙ ap (λ z. tabulate st (flipped cn z)) (sym h) in
      (
        cn',
        st',
        start ∙ t,
        record {
          restored = n.restored;
          same_active = λ s. n.same_active s ∙ flipped-active f cn s is fits;
        },
      )

  plain :
      (f : Formula) (last : CondExpr) (init : List CondExpr)
      → cn.expr ≡ postfix f
      → postfix f ≡ init ++ (last ∷ [])
      → is_not last.expr_type ≡ false
      → normalize_expr st cn ≡ tabulate st cn
  unfolding normalize_expr
  plain f last [] is h kept =
      ap (normalize_cases st cn) (is ∙ h) ∙ unfold normalize_cases in rw kept refl
  plain f last (e ∷ es) is h kept =
      ap (normalize_cases st cn) (is ∙ h) ∙ normalize_cases-snoc st cn e es last ∙ rw kept refl

-- `cond_normalize_expr` succeeds on a node whose expression is the postfix form of a formula that the
-- stack has cells for. It leaves every boolean in its state, and the new node turns on the same one
-- of its lists in every state of the booleans: a negation is taken off only with the lists exchanged.
pub normalize_expr-Normal :
    (f : Formula) (st : State) (cn : CondNode)
    → cn.expr ≡ postfix f
    → cells f ≤ maxdepth
    → (cn' : CondNode) × (st' : State) × (normalize_expr st cn ≡ normalized cn' st')
      × Normal st cn cn' st'
unfolding postfix Normalizes cells
normalize_expr-Normal (var b) st cn is fits =
    keeps st cn (var b) is fits (plain st cn (var b) (operand b) [] is refl refl)
normalize_expr-Normal (neg f) st cn is fits = strips st cn f is fits
normalize_expr-Normal (join c f g) st cn is fits = keeps st cn (join c f g) is fits (
    plain st cn (join c f g) (op (type_of c)) (postfix f ++ postfix g) is
      (sym (append_assoc (postfix f) (postfix g) (op (type_of c) ∷ []))) (kept c))
