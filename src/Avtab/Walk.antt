-- ===== src/Avtab/Walk.antt =====
-- The walk over all nodes of a key, by `avtab_search_node` and `avtab_search_node_next`.
use ap_policy.Common.Buckets.{chain_at, not_null}
use ap_policy.Common.{
  ℕ, zero, suc, ◌≤◌, ◌≡◌, refl, true, Option, some, none, List, [], ◌∷◌, arith, if◌then◌else◌, inl,
  inr, Bool-cases, length,
}
use ap_policy.Avtab.{
  Key, AvtabNode, Avtab, kinds, hash, matches, before, search_chain, search_at, search_node,
  search_node_next,
}
use ap_policy.Avtab.Chain.{Below, IsSorted, before_trans, matches-before}
use ap_policy.Avtab.Table.{IsValid, hash-le}

-- the rounds left from a node with what follows it
abbrev pub rounds : Option (AvtabNode × List AvtabNode) → ℕ
rounds none = 0
rounds (some (n, rest)) = suc (length rest)

module _ {ℓ} {S : Type ℓ} (body : S → AvtabNode → S) (specified : ℕ) where
  -- `node != NULL; node = avtab_search_node_next(node, specified)`
  pub each_node : ℕ → Option (AvtabNode × List AvtabNode) → S → S
  unfolding search_node_next
  each_node zero p st = st
  each_node (suc fuel) none st = st
  each_node (suc fuel) (some p) st = each_node fuel (search_node_next p specified) (body st p.0)

  abbrev pub fold_nodes : S → List AvtabNode → S
  fold_nodes st [] = st
  fold_nodes st (n ∷ ns) = fold_nodes (body st n) ns

-- from the node that `avtab_search_node` finds
pub for_nodes {ℓ} : {S : Type ℓ} → (S → AvtabNode → S) → Avtab → Key → S → S
unfolding each_node search_node
for_nodes body h key st =
    let start = search_node h key in each_node body key.specified (rounds start) start st

-- all nodes of a chain that a key matches
unfoldable pub selected : Key → ℕ → List AvtabNode → List AvtabNode
selected key specified [] = []
selected key specified (cur ∷ rest) =
    if matches key specified cur.key
    then cur ∷ selected key specified rest
    else selected key specified rest

-- the rules of a table for a key
unfoldable pub rules_of : Avtab → Key → List AvtabNode
unfolding selected hash
rules_of h key = selected key (kinds key.specified) (chain_at (hash key h.mask) h.htable)

same_matches :
    (key cur k : Key) (specified : ℕ)
    → matches key specified cur ≡ true
    → (matches cur specified k ≡ matches key specified k) × (before cur k ≡ before key k)
unfolding matches before
same_matches key cur k specified h =
    let a : key.source_type ≡ cur.source_type = ground arith in
    let b : key.target_type ≡ cur.target_type = ground arith in
    let c : key.target_class ≡ cur.target_class = ground arith in
    (rw (a, b, c) refl, rw (a, b, c) refl)

same_search :
    (key cur : Key) (specified : ℕ) (chain : List AvtabNode)
    → matches key specified cur ≡ true
    → search_chain cur specified chain ≡ search_chain key specified chain
unfolding search_chain
same_search key cur specified [] h = refl
same_search key cur specified (n ∷ rest) h =
    let (m, b) = same_matches key cur n.key specified h in
    rw (search_chain, m, b, same_search key cur specified rest h) refl

selected_past :
    (key at : Key) (specified : ℕ) (chain : List AvtabNode)
    → before key at ≡ true
    → Below at chain
    → selected key specified chain ≡ []
unfolding selected
selected_past key at specified [] h b = refl
selected_past key at specified (cur ∷ rest) h b =
    rw (matches-before key cur.key specified (before_trans key at cur.key h b.0))
      (selected_past key at specified rest h b.1)

rounds-le :
    (key : Key) (specified : ℕ) (chain : List AvtabNode)
    → rounds (search_chain key specified chain) ≤ length chain
unfolding search_chain
rounds-le key specified [] = omega arith
rounds-le key specified (cur ∷ rest) = elim (Bool-cases (matches key specified cur.key)) [
  | inl here ↦ rw (search_chain, here) (omega arith)
  | inr other ↦ elim (Bool-cases (before key cur.key)) [
    | inl past ↦ rw (search_chain, other, past) (omega arith)
    | inr on ↦ rw (search_chain, other, on) (omega (arith, rounds-le key specified rest))
  ]
]

module _ {ℓ} {S : Type ℓ} (body : S → AvtabNode → S) (specified : ℕ) where
  here_step :
      (key : Key) (cur : AvtabNode) (rest : List AvtabNode) (fuel : ℕ) (st : S) (end : S)
      → matches key (kinds specified) cur.key ≡ true
      → suc (length rest) ≤ fuel
      → ((f : ℕ)
          → length rest ≤ f
          → each_node body specified f (search_chain key (kinds specified) rest) (body st cur)
            ≡ end)
      → each_node body specified fuel (some (cur, rest)) st ≡ end
  unfolding each_node search_node_next
  here_step key cur rest zero st end m h others = absurd (omega arith)
  here_step key cur rest (suc fuel) st end m h others =
      rw (same_search key cur.key (kinds specified) rest m) (others fuel (omega arith))

  each_node-selected :
      (key : Key) (chain : List AvtabNode) (fuel : ℕ) (st : S)
      → IsSorted chain
      → rounds (search_chain key (kinds specified) chain) ≤ fuel
      → each_node body specified fuel (search_chain key (kinds specified) chain) st
        ≡ fold_nodes body specified st (selected key (kinds specified) chain)
  unfolding search_chain selected each_node
  each_node-selected key [] zero st s h = refl
  each_node-selected key [] (suc fuel) st s h = refl
  each_node-selected key (cur ∷ rest) fuel st s h =
      elim (Bool-cases (matches key (kinds specified) cur.key)) [
        | inr other ↦ elim (Bool-cases (before key cur.key)) [
          | inl past ↦
              rw
                (
                  search_chain,
                  other,
                  past,
                  selected_past key cur.key (kinds specified) rest past s.0,
                )
                (none_end fuel)
          | inr on ↦
              rw (search_chain, other, on)
                (each_node-selected key rest fuel st s.1 (rw (search_chain, other, on) at h))
        ]
        | inl here ↦
            let room : suc (length rest) ≤ fuel = rw (search_chain, here) at h in
            rw (search_chain, here)
              (here_step key cur rest fuel st _ here room (λ f le.
                each_node-selected key rest f (body st cur) s.1
                  (omega (arith, rounds-le key (kinds specified) rest))))
      ]
    where
      none_end : (fuel : ℕ) → each_node body specified fuel none st ≡ st
      none_end zero = refl
      none_end (suc fuel) = refl

  -- the loop visits the rules of the key, each once and in their order
  pub for_nodes-rules_of :
      (h : Avtab) (key : Key) (st : S)
      → IsValid h
      → key.specified ≡ specified
      → for_nodes body h key st ≡ fold_nodes body specified st (rules_of h key)
  unfolding for_nodes rules_of search_node search_at
  for_nodes-rules_of h key st v e =
      let there = not_null h.htable (hash key h.mask) (omega (arith, v.room, hash-le key h.mask)) in
      rw (there, e)
        (each_node-selected key (chain_at (hash key h.mask) h.htable) _ st
          (v.sorted (hash key h.mask)) (omega arith))
