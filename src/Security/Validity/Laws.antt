-- ===== src/Security/Validity/Laws.antt =====
-- A context is valid when its parts are authorized for each other.
use ap_policy.Common.{
  ◌-◌, ◌≤◌, ◌≡◌, ◌↔◌, ◌⊎◌, refl, ◌∙◌, Bool, true, false, some, arith, ltb, ◌==◌, ◌||◌, inl, inr,
  Bool-cases, Option-cases,
}
use ap_policy.Ebitmap.{Ebitmap, get_bit}
use ap_policy.Ebitmap.Shape.{IsValid}
use ap_policy.Mls.{Context, level_dom, range_contains}
use ap_policy.Security.Validity.Levels.{IsLevelOf, level_is_valid_iff}
use ap_policy.Security.Validity.{
  UserDatum, Policy, object_r, level_is_valid, user_has_range, mls_context_isvalid,
  role_is_authorized, context_is_valid,
}

-- the role is the one of objects, or the user may take it and the type
abbrev pub RoleFor : Policy → Context → Type 0
RoleFor p c =
    (c.role ≡ object_r)
    ⊎ ((types : Ebitmap) × (user : UserDatum) × (p.role_cache c.role ≡ some types)
        × (p.users c.user ≡ some user)
        × (get_bit types (c.type - 1) ≡ true)
        × (get_bit user.cache (c.role - 1) ≡ true))

-- the role is the one of objects, or the user may have the range
abbrev pub RangeFor : Policy → Context → Type 0
RangeFor p c =
    (c.role ≡ object_r)
    ⊎ ((user : UserDatum) × (p.users c.user ≡ some user)
        × (range_contains user.exp_range c.range ≡ true))

-- what the range of a context has to be, where the policy has levels
pub record IsRangeOf (p : Policy) (c : Context) : Type 0 where
  pub in_order : level_dom c.range.high c.range.low ≡ true
  pub low : IsLevelOf p c.range.low
  pub high : IsLevelOf p c.range.high
  pub range_for : RangeFor p c

-- the context of a policy, with parts that are authorized for each other
pub record IsAuthorized (p : Policy) (c : Context) : Type 0 where
  pub role : (1 ≤ c.role) × (c.role ≤ p.roles_nprim)
  pub user : (1 ≤ c.user) × (c.user ≤ p.users_nprim)
  pub type : (1 ≤ c.type) × (c.type ≤ p.types_nprim)
  pub role_for : RoleFor p c
  pub range : p.mls ≡ true → IsRangeOf p c

user_has_range_iff :
    (p : Policy) (c : Context)
    → (1 ≤ c.user) × (c.user ≤ p.users_nprim)
    → (user_has_range p c ≡ true) ↔ RangeFor p c
unfolding user_has_range
user_has_range_iff p c (lo, hi) = elim (Bool-cases (c.role == object_r)) [
  | inl object ↦ let e : c.role ≡ object_r = ground arith in (λ h. inl e, λ w. rw (object) refl)
  | inr other ↦ elim (Option-cases (p.users c.user)) [
    | inl nobody ↦ (
      λ h. absurd (ground arith),
      λ w. elim w [ inl e ↦ absurd (ground arith) | inr (u, e, r) ↦ cc (nobody, e) ],
    )
    | inr (u, e) ↦
        let known : (c.user == 0 || ltb p.users_nprim c.user) ≡ false = ground arith in
        (
          λ h. inr (u, e, rw (other, known, e) at h),
          λ w. elim w [
            | inl e' ↦ absurd (ground arith)
            | inr (u', e', r) ↦
                let same : u' ≡ u = cc (e, e') in rw (other, known, e) (rw (← same) r)
          ],
        )
  ]
]

role_is_authorized_iff : (p : Policy) (c : Context) → (role_is_authorized p c ≡ true) ↔ RoleFor p c
unfolding role_is_authorized
role_is_authorized_iff p c = elim (Bool-cases (c.role == object_r)) [
  | inl object ↦ let e : c.role ≡ object_r = ground arith in (λ h. inl e, λ w. rw (object) refl)
  | inr other ↦ elim (Option-cases (p.role_cache c.role)) [
    | inl no_role ↦ (
      λ h. cc (rw (other, no_role) at h),
      λ w. elim w [ inl e ↦ absurd (ground arith) | inr (t, u, e, f, a, b) ↦ cc (no_role, e) ],
    )
    | inr (types, e) ↦ elim (Option-cases (p.users c.user)) [
      | inl nobody ↦ (
        λ h. let h' = rw (other, e, nobody) at h in absurd (ground arith),
        λ w. elim w [ inl e' ↦ absurd (ground arith) | inr (t, u, f, e', a, b) ↦ cc (nobody, e') ],
      )
      | inr (u, f) ↦ (
        λ h. let h' = rw (other, e, f) at h in inr (types, u, e, f, ground arith, ground arith),
        λ w. elim w [
          | inl e' ↦ absurd (ground arith)
          | inr (t', u', e', f', a, b) ↦
              let t_same : t' ≡ types = cc (e, e') in
              let u_same : u' ≡ u = cc (f, f') in
              let a' : get_bit types (c.type - 1) ≡ true = rw (← t_same) a in
              let b' : get_bit u.cache (c.role - 1) ≡ true = rw (← u_same) b in
              rw (other, e, f, a', b') refl
        ],
      )
    ]
  ]
]

mls_context_isvalid_iff :
    (p : Policy) (c : Context)
    → IsValid c.range.low.cat
    → IsValid c.range.high.cat
    → (1 ≤ c.user) × (c.user ≤ p.users_nprim)
    → (b : Bool) × (mls_context_isvalid p c ≡ some b)
      × ((b ≡ true) ↔ (p.mls ≡ true → IsRangeOf p c))
unfolding mls_context_isvalid
mls_context_isvalid_iff p c vl vh known = elim (Bool-cases p.mls) [
  | inr off ↦ (true, rw (off) refl, (λ h on. cc, λ w. refl))
  | inl on ↦ elim (Bool-cases (level_dom c.range.high c.range.low)) [
    | inr turned ↦
        (false, rw (on, turned) refl, (λ h. cc, λ w. let r = w on in cc (r.in_order, turned)))
    | inl ordered ↦
        let (low, run_low, low_iff) = level_is_valid_iff p c.range.low vl in
        let (high, run_high, high_iff) = level_is_valid_iff p c.range.high vh in
        let user_iff = user_has_range_iff p c known in
        elim (Bool-cases low) [
          | inr bad ↦
              let run' : level_is_valid p c.range.low ≡ some false = run_low ∙ rw bad refl in
              (
                false,
                rw (on, ordered, run') refl,
                (λ h. cc, λ w. let l = low_iff.1 (w on).low in cc (l, bad)),
              )
          | inl good ↦
              let run_l : level_is_valid p c.range.low ≡ some true = run_low ∙ rw good refl in
              elim (Bool-cases high) [
                | inr bad ↦
                    let run' : level_is_valid p c.range.high ≡ some false =
                      run_high ∙ rw bad refl in
                    (
                      false,
                      rw (on, ordered, run_l, run') refl,
                      (λ h. cc, λ w. let l = high_iff.1 (w on).high in cc (l, bad)),
                    )
                | inl fine ↦
                    let run_h : level_is_valid p c.range.high ≡ some true =
                      run_high ∙ rw fine refl in
                    (
                      user_has_range p c,
                      rw (on, ordered, run_l, run_h) refl,
                      (
                        λ h _. record {
                          in_order = ordered;
                          low = low_iff.0 good;
                          high = high_iff.0 fine;
                          range_for = user_iff.0 h;
                        },
                        λ w. user_iff.1 (w on).range_for,
                      ),
                    )
              ]
        ]
  ]
]

-- For a context whose sets of categories are well-formed, `context_is_valid` returns, and the result is
-- true exactly when the context is authorized: the role, the user and the type are ones of the policy, the
-- role may have the type and the user the role, unless it is the role of objects; and where the policy has
-- levels, the high level dominates the low one, both have a sensitivity of the policy with categories that
-- it may have, and the range lies in the user's, again unless the role is the one of objects.
pub context_is_valid_iff :
    (p : Policy) (c : Context)
    → IsValid c.range.low.cat
    → IsValid c.range.high.cat
    → (b : Bool) × (context_is_valid p c ≡ some b) × ((b ≡ true) ↔ IsAuthorized p c)
unfolding context_is_valid
context_is_valid_iff p c vl vh =
    elim (Bool-cases (
      (c.role == 0 || ltb p.roles_nprim c.role)
      || ((c.user == 0 || ltb p.users_nprim c.user)
          || (c.type == 0 || ltb p.types_nprim c.type)))) [
            | inl out ↦ (
              false,
              rw (out) refl,
              (
                λ h. cc,
                λ w.
                    absurd
                      (ground (arith, w.role.0, w.role.1, w.user.0, w.user.1, w.type.0, w.type.1)),
              ),
            )
            | inr inside ↦
                let role_iff = role_is_authorized_iff p c in
                elim (Bool-cases (role_is_authorized p c)) [
                  | inr refused ↦ (
                    false,
                    rw (inside, refused) refl,
                    (λ h. cc, λ w. let a = role_iff.1 w.role_for in cc (a, refused)),
                  )
                  | inl allowed ↦
                      let user : (1 ≤ c.user) × (c.user ≤ p.users_nprim) =
                        (ground arith, ground arith) in
                      let (b, run, iff) = mls_context_isvalid_iff p c vl vh user in
                      (
                        b,
                        rw (inside, allowed) run,
                        (
                          λ h. record {
                            role = (ground arith, ground arith);
                            user = user;
                            type = (ground arith, ground arith);
                            role_for = role_iff.0 allowed;
                            range = iff.0 h;
                          },
                          λ w. iff.1 w.range,
                        ),
                      )
                ]
          ]
