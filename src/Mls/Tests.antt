-- ===== src/Mls/Tests.antt =====
-- Concrete levels, ranges, a context and a user.
use ap_policy.Common.{subst, some, none, ℕ, ◌≡◌, ◌↔◌, refl, true, arith, [], ◌∷◌}
use ap_policy.Common.Results.{ok, Returns}
use ap_policy.Ebitmap.{Ebitmap, ebitmap, node, init, get_bit, get_nodes}
use ap_policy.Ebitmap.Compare.{contains}
use ap_policy.Mls.{
  Level, level, Range, levels, Context, User, context_cmp, level_dom, level_eq, level_incomp,
  level_between, range_contains, range_glblub, setup_user_range,
}
use ap_policy.Mls.Order.{IsLevel, IsRange, AtLeast, InRange, level_compare_iff, range_contains_iff}
use ap_policy.Mls.Glblub.{Combines, range_glblub-Combines}
use ap_policy.Mls.Contexts.{context_cpy, range_cmp, copy_context, range_set, context_cpy-cmp}
use ap_policy.Mls.Transition.{
  Policy, InOrder, Labelled, transition, compute_sid, compute_sid-Labelled,
}
use ap_policy.Mls.UserRange.{IsUser, IsOrdered, Authorised, setup_user_range-Authorised}

-- the categories 0 and 2
abbrev some_cats : Ebitmap
some_cats = ebitmap (node 0 5 ∷ []) 64

abbrev low_level : Level
low_level = level 1 init

abbrev high_level : Level
high_level = level 4 some_cats

abbrev wide : Range
wide = levels low_level high_level

low_level-IsLevel : IsLevel low_level
low_level-IsLevel = record { chain = tt; top = refl; fits = omega arith }

high_level-IsLevel : IsLevel high_level
high_level-IsLevel = record {
  chain = (omega arith, refl, omega arith, omega arith, tt);
  top = refl;
  fits = omega arith;
}

wide-IsRange : IsRange wide
wide-IsRange = (low_level-IsLevel, high_level-IsLevel)

level_compare_iff_example :
    ((level_dom high_level low_level ≡ true) ↔ AtLeast high_level low_level)
    × ((level_eq high_level low_level ≡ true)
        ↔ (AtLeast high_level low_level × AtLeast low_level high_level))
    × ((level_incomp high_level low_level ≡ true)
        ↔ (¬ AtLeast high_level low_level × ¬ AtLeast low_level high_level))
level_compare_iff_example =
    level_compare_iff high_level low_level high_level-IsLevel low_level-IsLevel

-- the lower levels of the wide range
abbrev narrow : Range
narrow = levels low_level (level 2 some_cats)

narrow-IsRange : IsRange narrow
narrow-IsRange = (low_level-IsLevel, high_level-IsLevel)

narrow_ordered : AtLeast narrow.high narrow.low
unfolding get_bit get_nodes
narrow_ordered = (omega arith, λ i h. ground arith)

range_contains_iff_example :
    (range_contains wide narrow ≡ true)
    ↔ ((l : Level) → IsLevel l → InRange narrow l → InRange wide l)
range_contains_iff_example =
    range_contains_iff wide narrow wide-IsRange narrow-IsRange narrow_ordered

range_glblub-Combines_example : Returns (Combines wide wide) (range_glblub wide wide)
range_glblub-Combines_example =
    range_glblub-Combines wide wide wide-IsRange wide-IsRange (omega arith) (omega arith)

abbrev caller : Context
caller = record { user = 3; role = 2; type = 9; range = wide }

abbrev clerk : User
clerk = record { exp_range = wide; exp_dfltlevel = low_level }

abbrev session : Context
session = record { user = 5; role = 2; type = 9; range = levels low_level low_level }

caller-IsOrdered : IsOrdered caller
unfolding level_dom contains
caller-IsOrdered = record { range = wide-IsRange; ordered = refl }

clerk-IsUser : IsUser clerk
unfolding level_dom contains
clerk-IsUser = record {
  range = wide-IsRange;
  dflt = low_level-IsLevel;
  above_low = refl;
  below_high = refl;
}

session_range : setup_user_range caller clerk session true ≡ ok (record session { range = wide })
unfolding setup_user_range level_between level_dom contains
session_range = refl

setup_user_range-Authorised_example :
    Authorised caller clerk session (record session { range = wide })
setup_user_range-Authorised_example =
    setup_user_range-Authorised caller clerk session (record session { range = wide })
      caller-IsOrdered clerk-IsUser session_range

context_cpy-cmp_example :
    (context_cmp (context_cpy session caller) caller ≡ true)
    × (range_cmp (copy_context session caller) caller ≡ true)
    × (range_cmp (range_set session wide) caller ≡ true)
context_cpy-cmp_example = context_cpy-cmp session caller

-- a policy whose every transition rule has the wide range
abbrev small_policy : Policy
small_policy = record {
  mls = true;
  range_tr = λ a b n. some wide;
  nprim = 3;
  class_default = λ n. none;
  process_class = 2;
}

wide-InOrder : InOrder wide
wide-InOrder = (wide-IsRange, caller-IsOrdered.ordered)

rules-InOrder : (a b n : ℕ) (r : Range) → small_policy.range_tr a b n ≡ some r → InOrder r
rules-InOrder a b n r h = subst InOrder (some-injective h) wide-InOrder
  where
    some-injective : {x y : Range} → some x ≡ some y → x ≡ y
    some-injective e = cc

new_session :
    compute_sid small_policy caller caller 2 transition session ≡ ok (range_set session wide)
unfolding compute_sid
new_session = refl

compute_sid-Labelled_example : Labelled session (range_set session wide)
compute_sid-Labelled_example =
    compute_sid-Labelled small_policy caller caller 2 transition session (range_set session wide)
      refl wide-InOrder wide-InOrder rules-InOrder new_session
