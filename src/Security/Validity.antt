-- ===== src/Security/Validity.antt =====
-- The validity of a context: `context_is_valid` of libsepol/src/context.c and `mls_context_isvalid` of
-- libsepol/src/mls.c.
pub mod Levels
pub mod Laws
mod Tests
use ap_policy.Common.{
  ℕ, suc, ◌-◌, ◌<◌, ◌≤◌, ◌≡◌, refl, Bool, true, false, Option, some, none, List, [], ◌∷◌, arith,
  ltb, ◌==◌, if◌then◌else◌, ◌&&◌, ◌||◌, not, inl, inr, Bool-cases,
}
use ap_policy.Ebitmap.{Ebitmap, get_bit}
use ap_policy.Ebitmap.Walk.{for_each_positive_bit}
use ap_policy.Mls.{Level, Range, Context, level_dom, range_contains}

-- what of a user is read
pub record UserDatum : Type 0 where
  pub cache : Ebitmap
  pub exp_range : Range

-- what of the policy is read; an array is a function of the value, and so is the search for the
-- categories of a sensitivity by its name
pub record Policy : Type 0 where
  pub mls : Bool
  pub roles_nprim : ℕ
  pub users_nprim : ℕ
  pub types_nprim : ℕ
  pub levels_nprim : ℕ
  pub cats_nprim : ℕ
  pub role_cache : ℕ → Option Ebitmap
  pub users : ℕ → Option UserDatum
  pub level_cats : ℕ → Option Ebitmap

-- OBJECT_R_VAL
abbrev pub object_r : ℕ
object_r = 1

-- the loop over the categories of a level
pub cats_allowed : Policy → Ebitmap → List ℕ → Bool
cats_allowed p allowed [] = true
cats_allowed p allowed (i ∷ is) =
    if ltb p.cats_nprim i
    then false
    else if not (get_bit allowed i)
    then false
    else cats_allowed p allowed is

-- a round of the loop over the two levels
pub level_is_valid : Policy → Level → Option Bool
unfolding cats_allowed
level_is_valid p l =
    if l.sens == 0 || ltb p.levels_nprim l.sens then some false else elim (p.level_cats l.sens) [
      | none ↦ some false
      | some allowed ↦ elim (for_each_positive_bit (suc l.cat.highbit) l.cat) [
        | none ↦ none
        | some is ↦ some (cats_allowed p allowed is)
      ]
    ]

-- the user is authorized for the range
pub user_has_range : Policy → Context → Bool
user_has_range p c =
    if c.role == object_r
    then true
    else if c.user == 0 || ltb p.users_nprim c.user
    then false
    else elim (p.users c.user) [ none ↦ false | some u ↦ range_contains u.exp_range c.range ]

pub mls_context_isvalid : Policy → Context → Option Bool
unfolding level_is_valid user_has_range
mls_context_isvalid p c =
    if not p.mls
    then some true
    else if not (level_dom c.range.high c.range.low)
    then some false
    else elim (level_is_valid p c.range.low) [
      | none ↦ none
      | some false ↦ some false
      | some true ↦ elim (level_is_valid p c.range.high) [
        | none ↦ none
        | some false ↦ some false
        | some true ↦ some (user_has_range p c)
      ]
    ]

-- the role is authorized for the type, and the user for the role
pub role_is_authorized : Policy → Context → Bool
role_is_authorized p c = if c.role == object_r then true else elim (p.role_cache c.role) [
  | none ↦ false
  | some types ↦
      get_bit types (c.type - 1)
      && (elim (p.users c.user) [ none ↦ false | some u ↦ get_bit u.cache (c.role - 1) ])
]

pub context_is_valid : Policy → Context → Option Bool
unfolding role_is_authorized mls_context_isvalid
context_is_valid p c =
    if (c.role == 0 || ltb p.roles_nprim c.role)
      || ((c.user == 0 || ltb p.users_nprim c.user) || (c.type == 0 || ltb p.types_nprim c.type))
    then some false
    else if not (role_is_authorized p c)
    then some false
    else mls_context_isvalid p c
