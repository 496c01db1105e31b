-- ===== src/Sidtab/Tests.antt =====
-- A concrete SID table with two contexts.
use ap_policy.Common.{ℕ, ◌≡◌, ◌↔◌, ◌≢◌, ◌⊎◌, refl, some}
use ap_policy.Common.Results.{ok, err, enomem}
use ap_policy.Common.Buckets.{empty_chains, chain_at, put_chain}
use ap_policy.Mls.{context_cpy_range}
use ap_policy.Mls.Contexts.{context_cpy}
use ap_policy.Ebitmap.{init}
use ap_policy.Mls.{Context, context_cmp, level, levels}
use ap_policy.Sidtab.{
  Sidtab, create, hash, insert_chain, insert_node, insert, new_node, search_context, context_chain,
  context_chains, context_to_sid,
}
use ap_policy.Sidtab.View.{view, create-IsValid}
use ap_policy.Sidtab.View.Assign.{Assigned, Full, context_to_sid-Assigned, context_to_sid_distinct}

abbrev context : ℕ → Context
context user = record {
  user = user;
  role = 2;
  type = 7;
  range = levels (level 1 init) (level 1 init);
}

abbrev table1 : Sidtab
table1 = (context_to_sid create (context 1)).0

abbrev table2 : Sidtab
table2 = (context_to_sid table1 (context 2)).0

context_to_sid-Assigned_example :
    ((s' : Sidtab) × (sid : ℕ) × (context_to_sid create (context 1) ≡ (s', ok sid))
      × Assigned create (context 1) s' sid)
    ⊎ ((context_to_sid create (context 1) ≡ (create, err enomem))
        × ((k : ℕ) → view create k ≢ some (context 1))
        × Full create)
context_to_sid-Assigned_example = context_to_sid-Assigned create (context 1) create-IsValid

run1 : context_to_sid create (context 1) ≡ (table1, ok 1)
unfolding context_to_sid search_context create insert insert_node insert_chain context_chains
    empty_chains chain_at
run1 = refl

run2 : context_to_sid table1 (context 2) ≡ (table2, ok 2)
unfolding context_to_sid search_context create insert insert_node insert_chain context_chains
    context_chain empty_chains chain_at put_chain hash new_node context_cmp context_cpy
    context_cpy_range
run2 = refl

context_to_sid_distinct_example : (◌≡◌ {A = ℕ} 1 2) ↔ (context 1 ≡ context 2)
context_to_sid_distinct_example =
    context_to_sid_distinct create table1 table2 (context 1) (context 2) 1 2 create-IsValid run1
      run2
