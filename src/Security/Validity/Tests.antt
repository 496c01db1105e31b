-- ===== src/Security/Validity/Tests.antt =====
-- A context of a small policy.
use ap_policy.Common.{◌≡◌, ◌↔◌, refl, Bool, true, some, [], ◌∷◌, arith}
use ap_policy.Ebitmap.{Ebitmap, ebitmap, node}
use ap_policy.Ebitmap.Shape
use ap_policy.Mls.{Context, level, levels}
use ap_policy.Security.Validity.{Policy, context_is_valid}
use ap_policy.Security.Validity.Laws.{IsAuthorized, context_is_valid_iff}

abbrev two_cats : Ebitmap
two_cats = ebitmap (node 0 6 ∷ []) 64

abbrev policy : Policy
policy = record {
  mls = true;
  roles_nprim = 3;
  users_nprim = 1;
  types_nprim = 7;
  levels_nprim = 1;
  cats_nprim = 4;
  role_cache = λ r. some two_cats;
  users = λ u.
      some (record { cache = two_cats; exp_range = levels (level 1 two_cats) (level 1 two_cats) });
  level_cats = λ l. some two_cats;
}

abbrev context : Context
context = record {
  user = 1;
  role = 2;
  type = 3;
  range = levels (level 1 two_cats) (level 1 two_cats);
}

two_cats-IsValid : Shape.IsValid two_cats
two_cats-IsValid = record {
  chain = (omega arith, refl, omega arith, omega arith, tt);
  top = refl;
  fits = omega arith;
}

context_is_valid_iff_example :
    (b : Bool) × (context_is_valid policy context ≡ some b)
    × ((b ≡ true) ↔ IsAuthorized policy context)
context_is_valid_iff_example = context_is_valid_iff policy context two_cats-IsValid two_cats-IsValid
