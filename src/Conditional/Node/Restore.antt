-- ===== src/Conditional/Node/Restore.antt =====
-- `cond_normalize_expr` tries every combination of states and puts the old states back.
use ap_policy.Common.{
  ℕ, zero, suc, ◌+◌, ◌≡◌, refl, ◌∙◌, Bool, false, List, [], ◌∷◌, map, leb, ◌==◌, ◌||◌, inl, inr,
  Bool-cases, Option-cases, arith, ◌^◌,
}
use ap_policy.Common.Bits.{test_bit}
use ap_policy.Conditional.{CondExpr, State, evaluate_expr}
use ap_policy.Conditional.Node.{
  CondNode, normalized, find_bools, update, assign, precompute, restore, tabulate, max_bools,
}

abbrev pub listed : ℕ → List ℕ → Bool
listed b [] = false
listed b (id ∷ ids) = b == id || listed b ids

-- the two states agree on every boolean that is not listed
abbrev pub Outside : List ℕ → State → State → Type 0
Outside ids st st' = (b : ℕ) → listed b ids ≡ false → st' b ≡ st b

assign-Outside : (ids : List ℕ) (test j : ℕ) (st : State) → Outside ids st (assign ids test j st)
unfolding assign
assign-Outside [] test j st b h = refl
assign-Outside (id ∷ ids) test j st b h =
    ground (arith, assign-Outside ids test (j + 1) (update st id (test_bit test j)) b)

precompute-Outside :
    (rounds test : ℕ) (st : State) (ids : List ℕ) (expr : List CondExpr) (table : ℕ)
    → Outside ids st (precompute rounds test st ids expr table).1
unfolding precompute
precompute-Outside zero test st ids expr table b h = refl
precompute-Outside (suc rounds) test st ids expr table b h =
    let st' = assign ids test 0 st in
    elim (Option-cases (evaluate_expr st' expr)) [
      | inl undefined ↦ rw (undefined, precompute) (assign-Outside ids test 0 st b h)
      | inr (k, done) ↦
          rw (done, precompute)
            (precompute-Outside rounds (test + 1) st' ids expr _ b h
              ∙ assign-Outside ids test 0 st b h)
    ]

-- the old values of the listed booleans, written back
restore-back :
    (ids : List ℕ) (st st' : State)
    → Outside ids st st'
    → (b : ℕ) → restore ids (map st ids) st' b ≡ st b
unfolding restore
restore-back [] st st' out b = out b refl
restore-back (id ∷ ids) st st' out b =
    restore-back ids st (update st' id (st id)) (λ c h. unfold update in ground (arith, out c)) b

-- the outcome of the tabulation, if it succeeds, with the expression and the lists of the node
pub record Tabulated (st : State) (cn cn' : CondNode) (st' : State) : Type 0 where
  pub restored : (b : ℕ) → st' b ≡ st b
  pub expr : cn'.expr ≡ cn.expr
  pub lists : (cn'.true_list ≡ cn.true_list) × (cn'.false_list ≡ cn.false_list)

normalized-injective :
    {a b : CondNode} {s t : State} → normalized a s ≡ normalized b t → (a ≡ b) × (s ≡ t)
normalized-injective h = (cc, cc)

pub tabulate-Tabulated :
    (st : State) (cn cn' : CondNode) (st' : State)
    → tabulate st cn ≡ normalized cn' st'
    → Tabulated st cn cn' st'
unfolding tabulate
tabulate-Tabulated st cn cn' st' h =
    let (ids, n) = find_bools cn.expr ([], 0) in
    elim (Bool-cases (leb n max_bools)) [
      | inr long ↦
          let (same, states) = normalized-injective (rw long at h) in
          rw (← same, ← states) (record { restored = λ b. refl; expr = refl; lists = (refl, refl) })
      | inl short ↦
          let r = precompute (2 ^ n) 0 st ids cn.expr 0 in
          elim (Option-cases r.0) [
            | inl undefined ↦ let bad = rw (short, tabulate, undefined) at h in cc
            | inr (table, done) ↦
                let (same, states) = normalized-injective (rw (short, tabulate, done) at h) in
                rw (← same, ← states)
                  (record {
                    restored =
                        restore-back ids st r.1 (precompute-Outside (2 ^ n) 0 st ids cn.expr 0);
                    expr = refl;
                    lists = (refl, refl);
                  })
          ]
    ]
