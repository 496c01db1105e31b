-- ===== src/Mls.antt =====
-- Levels, ranges and contexts of multi-level security: include/sepol/policydb/mls_types.h,
-- include/sepol/policydb/context.h and the range operations of libsepol/src/mls.c.
pub mod Tests
pub mod Order
pub mod Glblub
pub mod UserRange
pub mod Binary
pub mod Contexts
pub mod Transition
use ap_policy.Common.{ℕ, Bool, true, false, ltb, leb, ◌==◌, if◌then◌else◌, ◌&&◌, not, max, min}
use ap_policy.Common.Results.{Result, ok, err, einval, ◌>>=◌}
use ap_policy.Ebitmap
use ap_policy.Ebitmap.Compare.{cmp, contains}
use ap_policy.Ebitmap.{Ebitmap, cpy, init}

pub record Level : Type 0 where
  pub sens : ℕ
  pub cat : Ebitmap

abbrev pub level : ℕ → Ebitmap → Level
level sens cat = record { sens = sens; cat = cat }

-- `level[0]` and `level[1]`
pub record Range : Type 0 where
  pub low : Level
  pub high : Level

abbrev pub levels : Level → Level → Range
levels low high = record { low = low; high = high }

pub record Context : Type 0 where
  pub user : ℕ
  pub role : ℕ
  pub type : ℕ
  pub range : Range

pub level_cpy : Level → Level
level_cpy src = level src.sens (cpy src.cat)

pub level_eq : Level → Level → Bool
level_eq l1 l2 = l1.sens == l2.sens && cmp l1.cat l2.cat

pub level_dom : Level → Level → Bool
level_dom l1 l2 = leb l2.sens l1.sens && contains l1.cat l2.cat

pub level_incomp : Level → Level → Bool
unfolding level_dom
level_incomp l1 l2 = not (level_dom l1 l2) && not (level_dom l2 l1)

pub level_between : Level → Level → Level → Bool
level_between l1 l2 l3 = level_dom l1 l2 && level_dom l3 l1

pub range_contains : Range → Range → Bool
range_contains r1 r2 = level_dom r2.low r1.low && level_dom r1.high r2.high

pub range_cpy : Range → Range
unfolding level_cpy
range_cpy src = levels (level_cpy src.low) (level_cpy src.high)

pub range_eq : Range → Range → Bool
range_eq r1 r2 = level_eq r1.low r2.low && level_eq r1.high r2.high

pub range_glblub : Range → Range → Result Range
range_glblub r1 r2 =
    if ltb r1.high.sens r2.low.sens
    then err einval
    else (if ltb r2.high.sens r1.low.sens
        then err einval
        else ok (
            levels (level (max r1.low.sens r2.low.sens) (Ebitmap.and r1.low.cat r2.low.cat))
              (level (min r1.high.sens r2.high.sens) (Ebitmap.and r1.high.cat r2.high.cat))))

-- `mls_context_cpy`, and the copies of one level of `src` to both levels of `dst`
unfoldable pub context_cpy_range : Context → Context → Context
context_cpy_range dst src = record dst { range = range_cpy src.range }

pub context_cpy_low : Context → Context → Context
context_cpy_low dst src =
    let l = src.range.low in
    record dst { range = levels (level l.sens (cpy l.cat)) (level l.sens (cpy l.cat)) }

pub context_cpy_high : Context → Context → Context
context_cpy_high dst src =
    let l = src.range.high in
    record dst { range = levels (level l.sens (cpy l.cat)) (level l.sens (cpy l.cat)) }

unfoldable pub context_cmp : Context → Context → Bool
unfolding range_eq
context_cmp c1 c2 =
    c1.user == c2.user && (c1.role == c2.role && (c1.type == c2.type && range_eq c1.range c2.range))

-- the fields of `user_datum_t` that `mls_setup_user_range` reads
pub record User : Type 0 where
  pub exp_range : Range
  pub exp_dfltlevel : Level

-- the sensitivity that `mls_setup_user_range` chooses
pub user_sen : Context → User → Result Level
user_sen fromcon user =
    let fromcon_sen = fromcon.range.low in
    let fromcon_clr = fromcon.range.high in
    let user_low = user.exp_range.low in
    let user_clr = user.exp_range.high in
    let user_def = user.exp_dfltlevel in
    if level_between user_def fromcon_sen fromcon_clr
    then ok user_def
    else (if level_between fromcon_sen user_def user_clr
        then ok fromcon_sen
        else (if level_between fromcon_clr user_low user_def then ok user_low else err einval))

-- the clearance that it chooses
pub user_clearance : Context → User → Result Level
user_clearance fromcon user =
    let fromcon_clr = fromcon.range.high in
    let user_clr = user.exp_range.high in
    if level_dom user_clr fromcon_clr
    then ok fromcon_clr
    else (if level_dom fromcon_clr user_clr then ok user_clr else err einval)

-- the new value of `usercon`, whose levels are assigned as structures; what it holds after an error,
-- where the source may have assigned the low level already, is not modelled
pub setup_user_range : Context → User → Context → Bool → Result Context
unfolding user_sen user_clearance
setup_user_range fromcon user usercon mls =
    if mls
    then (do
      sen ← user_sen fromcon user
      clr ← user_clearance fromcon user
      ok (record usercon { range = levels sen clr }))
    else ok usercon
