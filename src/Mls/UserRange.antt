-- ===== src/Mls/UserRange.antt =====
-- `mls_setup_user_range`: the range of a login context is one that the user may have.
use ap_policy.Common.{◌≡◌, refl, subst, ◌⊎◌, true, arith, inl, inr, Bool-cases}
use ap_policy.Common.Results.{ok, ok-injective, >>=-eq-ok}
use ap_policy.Mls.{
  Level, Context, User, level_dom, level_between, range_contains, user_sen, user_clearance,
  setup_user_range,
}
use ap_policy.Mls.Order.{IsLevel, IsRange, level_dom_refl, level_dom_trans}

-- a user whose default level lies in its range
pub record IsUser (u : User) : Type 0 where
  pub range : IsRange u.exp_range
  pub dflt : IsLevel u.exp_dfltlevel
  pub above_low : level_dom u.exp_dfltlevel u.exp_range.low ≡ true
  pub below_high : level_dom u.exp_range.high u.exp_dfltlevel ≡ true

-- a context whose high level dominates its low one
pub record IsOrdered (c : Context) : Type 0 where
  pub range : IsRange c.range
  pub ordered : level_dom c.range.high c.range.low ≡ true

module _ (fromcon : Context) (user : User) (from : IsOrdered fromcon) (u : IsUser user) where
  -- the sensitivity chosen lies in the user's range and below the clearance of the caller
  record Chosen (l : Level) : Type 0 where
    valid : IsLevel l
    allowed : level_dom l user.exp_range.low ≡ true
    user_clears : level_dom user.exp_range.high l ≡ true
    caller_clears : level_dom fromcon.range.high l ≡ true

  dflt-Chosen :
      level_between user.exp_dfltlevel fromcon.range.low fromcon.range.high ≡ true
      → Chosen user.exp_dfltlevel
  unfolding level_between
  dflt-Chosen b = record {
    valid = u.dflt;
    allowed = u.above_low;
    user_clears = u.below_high;
    caller_clears = ground arith;
  }

  from_Chosen :
      level_between fromcon.range.low user.exp_dfltlevel user.exp_range.high ≡ true
      → Chosen fromcon.range.low
  unfolding level_between
  from_Chosen b = record {
    valid = from.range.0;
    allowed =
        level_dom_trans fromcon.range.low user.exp_dfltlevel user.exp_range.low from.range.0 u.dflt
          u.range.0 (ground arith) u.above_low;
    user_clears = ground arith;
    caller_clears = from.ordered;
  }

  low-Chosen :
      level_between fromcon.range.high user.exp_range.low user.exp_dfltlevel ≡ true
      → Chosen user.exp_range.low
  unfolding level_between
  low-Chosen b = record {
    valid = u.range.0;
    allowed = level_dom_refl user.exp_range.low u.range.0;
    user_clears =
        level_dom_trans user.exp_range.high user.exp_dfltlevel user.exp_range.low u.range.1 u.dflt
          u.range.0 u.below_high u.above_low;
    caller_clears = ground arith;
  }

  user_sen-Chosen : (l : Level) → user_sen fromcon user ≡ ok l → Chosen l
  unfolding user_sen
  user_sen-Chosen l h =
      elim (Bool-cases (level_between user.exp_dfltlevel fromcon.range.low fromcon.range.high)) [
        | inl b1 ↦ subst Chosen (ok-injective (rw b1 at h)) (dflt-Chosen b1)
        | inr n1 ↦
            elim (Bool-cases
              (level_between fromcon.range.low user.exp_dfltlevel user.exp_range.high)) [
                | inl b2 ↦ subst Chosen (ok-injective (rw (n1, b2) at h)) (from_Chosen b2)
                | inr n2 ↦
                    elim (Bool-cases
                      (level_between fromcon.range.high user.exp_range.low user.exp_dfltlevel)) [
                        | inl b3 ↦
                            subst Chosen (ok-injective (rw (n1, n2, b3) at h)) (low-Chosen b3)
                        | inr n3 ↦ let bad = rw (n1, n2, n3) at h in cc
                      ]
              ]
      ]

  -- the clearance chosen is the lower of the two, and one of them
  record Cleared (l : Level) : Type 0 where
    valid : IsLevel l
    user_has : level_dom user.exp_range.high l ≡ true
    caller_has : level_dom fromcon.range.high l ≡ true
    which : (l ≡ fromcon.range.high) ⊎ (l ≡ user.exp_range.high)

  user_clearance-Cleared : (l : Level) → user_clearance fromcon user ≡ ok l → Cleared l
  unfolding user_clearance
  user_clearance-Cleared l h =
      elim (Bool-cases (level_dom user.exp_range.high fromcon.range.high)) [
        | inl d1 ↦ subst Cleared (ok-injective (rw d1 at h)) (record {
          valid = from.range.1;
          user_has = d1;
          caller_has = level_dom_refl fromcon.range.high from.range.1;
          which = inl refl;
        })
        | inr n1 ↦ elim (Bool-cases (level_dom fromcon.range.high user.exp_range.high)) [
          | inl d2 ↦ subst Cleared (ok-injective (rw (n1, d2) at h)) (record {
            valid = u.range.1;
            user_has = level_dom_refl user.exp_range.high u.range.1;
            caller_has = d2;
            which = inr refl;
          })
          | inr n2 ↦ let bad = rw (n1, n2) at h in cc
        ]
      ]

-- what `mls_setup_user_range` promises of the context that it returns
pub record Authorised (fromcon : Context) (user : User) (usercon c : Context) : Type 0 where
  pub range : IsRange c.range
  pub ordered : level_dom c.range.high c.range.low ≡ true
  pub allowed : range_contains user.exp_range c.range ≡ true
  pub caller : level_dom fromcon.range.high c.range.high ≡ true
  pub identity : (c.user ≡ usercon.user) × (c.role ≡ usercon.role) × (c.type ≡ usercon.type)

-- If a policy has MLS and `mls_setup_user_range` succeeds, for a calling context in order and a user
-- whose default level lies in its range, then the new context has a range in order that lies within
-- the user's range, the caller's clearance dominates its own, and its identity, role and type are
-- unchanged.
pub setup_user_range-Authorised :
    (fromcon : Context) (user : User) (usercon c : Context)
    → IsOrdered fromcon
    → IsUser user
    → setup_user_range fromcon user usercon true ≡ ok c
    → Authorised fromcon user usercon c
unfolding setup_user_range
setup_user_range-Authorised fromcon user usercon c from u h =
    let (sen, is_sen, h') = >>=-eq-ok (user_sen fromcon user) _ h in
    let (clr, is_clr, h'') = >>=-eq-ok (user_clearance fromcon user) _ h' in
    let low = user_sen-Chosen fromcon user from u sen is_sen in
    let high = user_clearance-Cleared fromcon user from u clr is_clr in
    subst (Authorised fromcon user usercon) (ok-injective h'') (record {
      range = (low.valid, high.valid);
      ordered = elim high.which [
        | inl caller ↦ rw caller low.caller_clears
        | inr own ↦ rw own low.user_clears
      ];
      allowed = unfold range_contains in ground (arith, low.allowed, high.user_has);
      caller = high.caller_has;
      identity = (refl, refl, refl);
    })
