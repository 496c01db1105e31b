-- ===== src/Security/Constraint/Postfix.antt =====
-- `constraint_expr_eval_reason` computes the value of the formula that the expression is the postfix form of.
use ap_policy.Common.{
  ℕ, ◌+◌, ◌≤◌, ◌≡◌, refl, ap, ◌∙◌, Bool, true, false, Option, some, none, List, [], ◌∷◌, ◌++◌,
  arith, leb, ◌==◌, if◌then◌else◌, ◌&&◌, ◌||◌, not, length, max, inl, inr, Bool-cases, Option-cases,
}
use mathlib.Core.List.{append_assoc, append-nil}
use ap_policy.Ebitmap.{Ebitmap, init}
use ap_policy.Security.Constraint.{
  ExprType, cexpr_not, cexpr_and, cexpr_or, cexpr_attr, cexpr_names, ConstraintExpr, maxdepth, Env,
  attr_value, names_value, Verdict, denied, verdict, push, step, evaluate_loop, evaluate,
}

-- a constraint as it is written in a policy
pub data Formula : Type 0 where
  attribute : ℕ → ℕ → Formula
  name : ℕ → ℕ → Ebitmap → Formula
  neg : Formula → Formula
  both either : Formula → Formula → Formula

-- both values, when there are both
abbrev pub join : (Bool → Bool → Bool) → Option Bool → Option Bool → Option Bool
join f none y = none
join f (some x) none = none
join f (some x) (some y) = some (f x y)

abbrev pub negated : Option Bool → Option Bool
negated none = none
negated (some x) = some (not x)

-- the value of a formula, when all of its tests have one
unfoldable pub value : Env → Formula → Option Bool
value env (attribute attr op) = attr_value env attr op
value env (name attr op names) = names_value env attr op names
value env (neg f) = negated (value env f)
value env (both f g) = join ◌&&◌ (value env f) (value env g)
value env (either f g) = join ◌||◌ (value env f) (value env g)

abbrev pub operator : ExprType → ConstraintExpr
operator t = record { expr_type = t; attr = 0; op = 0; names = init }

unfoldable pub postfix : Formula → List ConstraintExpr
postfix (attribute attr op) =
    record { expr_type = cexpr_attr; attr = attr; op = op; names = init } ∷ []
postfix (name attr op names) =
    record { expr_type = cexpr_names; attr = attr; op = op; names = names } ∷ []
postfix (neg f) = postfix f ++ (operator cexpr_not ∷ [])
postfix (both f g) = postfix f ++ (postfix g ++ (operator cexpr_and ∷ []))
postfix (either f g) = postfix f ++ (postfix g ++ (operator cexpr_or ∷ []))

-- the cells of the stack that the formula needs
unfoldable pub cells : Formula → ℕ
cells (attribute attr op) = 1
cells (name attr op names) = 1
cells (neg f) = cells f
cells (both f g) = max (cells f) (cells g + 1)
cells (either f g) = max (cells f) (cells g + 1)

cells-pos : (f : Formula) → 1 ≤ cells f
unfolding cells
cells-pos (attribute attr op) = omega arith
cells-pos (name attr op names) = omega arith
cells-pos (neg f) = cells-pos f
cells-pos (both f g) = omega (arith, cells-pos f)
cells-pos (either f g) = omega (arith, cells-pos f)

-- the rest of the evaluation behind a formula
abbrev continue : Env → List Bool → List ConstraintExpr → Option Bool → Verdict
continue env s rest none = denied
continue env s rest (some b) = evaluate_loop env (b ∷ s) rest

-- what the expression of a formula does, whatever follows and whatever is on the stack
abbrev Computes : Env → Formula → Type 0
Computes env f =
    (s : List Bool) (rest : List ConstraintExpr)
    → length s ≤ maxdepth
    → evaluate_loop env s (postfix f ++ rest)
      ≡ (if leb (length s + cells f) maxdepth then continue env s rest (value env f) else denied)

-- one test
test-Computes :
    (env : Env) (e : ConstraintExpr) (v : Option Bool) (s : List Bool) (rest : List ConstraintExpr)
    → step env s e e.expr_type ≡ push s v
    → length s ≤ maxdepth
    → evaluate_loop env s (e ∷ rest)
      ≡ (if leb (length s + 1) maxdepth then continue env s rest v else denied)
unfolding evaluate_loop push
test-Computes env e v s rest run h = elim (Bool-cases (length s == maxdepth)) [
  | inl full ↦
      let over : leb (length s + 1) maxdepth ≡ false = ground arith in
      rw (evaluate_loop, run, push, full, over) refl
  | inr room ↦
      let fits : leb (length s + 1) maxdepth ≡ true = ground arith in
      elim (Option-cases v) [
        | inl fault ↦ rw (evaluate_loop, run, push, room, fits, fault) refl
        | inr (b, e') ↦ rw (evaluate_loop, run, push, room, fits, e') refl
      ]
]

join-Computes :
    (env : Env) (f g : Formula) (t : ExprType) (op : Bool → Bool → Bool)
    → ((s : List Bool) (x y : Bool) (rest : List ConstraintExpr)
        → evaluate_loop env (y ∷ x ∷ s) (operator t ∷ rest) ≡ evaluate_loop env (op x y ∷ s) rest)
    → Computes env f
    → Computes env g
    → (s : List Bool) (rest : List ConstraintExpr) → length s ≤ maxdepth
    → evaluate_loop env s ((postfix f ++ (postfix g ++ (operator t ∷ []))) ++ rest) ≡ (
        if leb (length s + max (cells f) (cells g + 1)) maxdepth
        then continue env s rest (join op (value env f) (value env g))
        else denied)
join-Computes env f g t op run cf cg s rest h =
    let regroup : (postfix f ++ (postfix g ++ (operator t ∷ []))) ++ rest
        ≡ postfix f ++ (postfix g ++ (operator t ∷ rest)) =
      append_assoc (postfix f) (postfix g ++ (operator t ∷ [])) rest
      ∙ ap (λ es. postfix f ++ es) (append_assoc (postfix g) (operator t ∷ []) rest) in
    rw (regroup, cf s (postfix g ++ (operator t ∷ rest)) h)
      (elim (Bool-cases (leb (length s + cells f) maxdepth)) [
        | inr deep ↦ rw deep (ground arith)
        | inl fits ↦ rw fits (elim (Option-cases (value env f)) [
          | inl fault ↦ rw fault (ground arith)
          | inr (x, e) ↦
              let room : length s + 1 ≤ maxdepth = ground (arith, cells-pos f) in
              rw (e, cg (x ∷ s) (operator t ∷ rest) (omega arith))
                (elim (Option-cases (value env g)) [
                  | inl fault ↦ rw fault (ground arith)
                  | inr (y, e') ↦ rw (e', run s x y rest) (ground arith)
                ])
        ])
      ])

formula-Computes : (env : Env) (f : Formula) → Computes env f
unfolding value postfix cells
formula-Computes env (attribute attr op) s rest h =
    test-Computes env _ (attr_value env attr op) s rest (unfold step in refl) h
formula-Computes env (name attr op names) s rest h =
    test-Computes env _ (names_value env attr op names) s rest (unfold step in refl) h
formula-Computes env (neg f) s rest h =
    rw (append_assoc, formula-Computes env f s (operator cexpr_not ∷ rest) h)
      (elim (Option-cases (value env f)) [
        | inl fault ↦ rw fault refl
        | inr (x, e) ↦ rw e (
            ap (λ v. if leb (length s + cells f) maxdepth then v else denied)
              (unfold evaluate_loop in refl))
      ])
formula-Computes env (both f g) s rest h =
    join-Computes env f g cexpr_and ◌&&◌ (λ s x y rest. unfold evaluate_loop in refl)
      (formula-Computes env f) (formula-Computes env g) s rest h
formula-Computes env (either f g) s rest h =
    join-Computes env f g cexpr_or ◌||◌ (λ s x y rest. unfold evaluate_loop in refl)
      (formula-Computes env f) (formula-Computes env g) s rest h

-- `constraint_expr_eval_reason` on the postfix form of a constraint grants it exactly when the
-- constraint's formula is true. It denies when the formula is false, when one of its tests is none
-- that the policy knows, and when the formula needs more than CEXPR_MAXDEPTH cells of the stack.
pub evaluate-postfix :
    (env : Env) (f : Formula)
    → evaluate env (postfix f) ≡ (elim (value env f) [
      | none ↦ denied
      | some b ↦ if leb (cells f) maxdepth then verdict b else denied
    ])
unfolding evaluate
evaluate-postfix env f =
    let run = formula-Computes env f [] [] (omega arith) in
    let zero_cells : 0 + cells f ≡ cells f = omega arith in
    (rw (append-nil, zero_cells) at run) ∙ last env f
  where
    last :
        (env : Env) (f : Formula)
        → (if leb (cells f) maxdepth then continue env [] [] (value env f) else denied)
          ≡ (elim (value env f) [
            | none ↦ denied
            | some b ↦ if leb (cells f) maxdepth then verdict b else denied
          ])
    last env f = elim (Option-cases (value env f)) [
      | inl fault ↦ rw fault (ground arith)
      | inr (b, e) ↦ rw e (unfold evaluate_loop in refl)
    ]
