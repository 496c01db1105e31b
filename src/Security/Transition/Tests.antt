-- ===== src/Security/Transition/Tests.antt =====
-- The SID of a new object under a small policy.
use ap_policy.Common.{ℕ, zero, suc, ◌≡◌, refl, true, some, none, [], ◌∷◌, ◌++◌, arith}
use ap_policy.Common.Buckets.{empty_chains, chain_at}
use ap_policy.Common.Results.{ok}
use ap_policy.Avtab.{AvtabNode, Avtab}
use ap_policy.Avtab.Chain.{IsSorted, before_same}
use ap_policy.Avtab.Found.{head_datum}
use ap_policy.Avtab.Table.{IsValid}
use ap_policy.Avtab.Walk.{rules_of}
use ap_policy.Ebitmap.{init}
use ap_policy.Ebitmap.Shape
use ap_policy.Mls.{Context, level, levels}
use ap_policy.Mls.Order.{level_dom_refl}
use ap_policy.Mls.Transition.{InOrder, transition}
use ap_policy.Security.Transition.{Policy, unset, type_rule, compute_sid}
use ap_policy.Security.Transition.Laws.{Ends, enabled, type_rule-rules_of, compute_sid-Ends}
use ap_policy.Sidtab.{
  Sidtab, create, insert_chain, insert_node, insert, context_chains, search_context, context_to_sid,
}
use ap_policy.Sidtab.View.{create-IsValid, search-view}
use ap_policy.Sidtab.View.Assign.{Assigned, returned-Assigned}

abbrev context : Context
context = record { user = 1; role = 2; type = 7; range = levels (level 1 init) (level 1 init) }

abbrev table : Sidtab
table = (context_to_sid create context).0

taken : context_to_sid create context ≡ (table, ok 1)
unfolding context_to_sid search_context create insert insert_node insert_chain context_chains
    empty_chains chain_at
taken = refl

assigned : Assigned create context table 1
assigned = returned-Assigned create table context 1 create-IsValid taken

abbrev no_rules : Avtab
no_rules = record { htable = [] ∷ []; nel = 0; nslot = 1; mask = 0 }

abbrev rule : ℕ → ℕ → AvtabNode
rule specified type = record {
  key = record { source_type = 7; target_type = 7; target_class = 1; specified = specified };
  datum = record { data_bits = type; xperms = none };
}

-- a conditional rule that is off, and one that is on
abbrev conditional_rules : Avtab
conditional_rules = record {
  htable = (rule 0x10 4 ∷ rule 0x8010 5 ∷ []) ∷ [];
  nel = 2;
  nslot = 1;
  mask = 0;
}

abbrev policy : Policy
policy = record {
  nprim = 1;
  class_val_to_struct =
      λ c. record { default_user = unset; default_role = unset; default_type = unset };
  process_class = 1;
  te_avtab = no_rules;
  te_cond_avtab = conditional_rules;
  role_tr = record { role = 2; type = 7; tclass = 1; new_role = 3 } ∷ [];
  mls = record {
    mls = true;
    range_tr = λ a b n. none;
    nprim = 1;
    class_default = λ c. none;
    process_class = 1;
  };
  validity = record {
    mls = true;
    roles_nprim = 3;
    users_nprim = 1;
    types_nprim = 7;
    levels_nprim = 1;
    cats_nprim = 1;
    role_cache = λ r. none;
    users = λ u. none;
    level_cats = λ l. some init;
  };
  enforcing = true;
}

init-IsValid : Shape.IsValid init
init-IsValid = record { chain = tt; top = refl; fits = omega arith }

context-InOrder : InOrder context.range
context-InOrder = ((init-IsValid, init-IsValid), level_dom_refl (level 1 init) init-IsValid)

compute_sid-Ends_example :
    Ends policy table transition context context 1 (compute_sid policy table 1 1 1 transition)
compute_sid-Ends_example =
    compute_sid-Ends policy table 1 1 1 transition context context assigned.valid
      (search-view table 1 context assigned.valid assigned.here)
      (search-view table 1 context assigned.valid assigned.here) context-InOrder context-InOrder
      (λ a b n r h. cc)

no_rules-IsValid : IsValid no_rules
unfolding chain_at
no_rules-IsValid = record { room = omega arith; sorted = sorted }
  where
    sorted : (i : ℕ) → IsSorted (chain_at i no_rules.htable)
    sorted zero = tt
    sorted (suc i) = tt

conditional_rules-IsValid : IsValid conditional_rules
unfolding chain_at
conditional_rules-IsValid = record { room = omega arith; sorted = sorted }
  where
    sorted : (i : ℕ) → IsSorted (chain_at i conditional_rules.htable)
    sorted zero = ((before_same (rule 0x8010 5).key (rule 0x10 4).key refl refl refl, tt), (tt, tt))
    sorted (suc i) = tt

type_rule-rules_of_example :
    type_rule policy (rule 0x10 0).key
    ≡ head_datum (
        rules_of no_rules (rule 0x10 0).key
        ++ enabled (rules_of conditional_rules (rule 0x10 0).key))
type_rule-rules_of_example =
    type_rule-rules_of policy (rule 0x10 0).key no_rules-IsValid conditional_rules-IsValid
