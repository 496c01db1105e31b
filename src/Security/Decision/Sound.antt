-- ===== src/Security/Decision/Sound.antt =====
-- The permissions that `context_struct_compute_av` allows are those that the policy permits.
pub mod Audit
use ap_policy.Common.{
  ℕ, zero, suc, ◌+◌, ◌≤◌, ◌≡◌, ◌↔◌, ◌⊎◌, refl, sym, ◌∙◌, ap, subst, Bool, true, false, Option, some,
  none, List, [], ◌∷◌, arith, ◌==◌, ltb, if◌then◌else◌, ◌&&◌, ◌||◌, Bool-cases, inl, inr, bit_and,
  bit_or,
}
use ap_policy.Common.Bits.{test_bit, test_bit-or, test_bit-zero}
use ap_policy.Common.Results.{Result, ok, err}
use ap_policy.Avtab.{AvtabNode}
use ap_policy.Mls.{Context}
use ap_policy.Security.TypeRules.{
  AvDecision, Policy, av_allowed, is_enabled, te_node, cond_node, defaults, type_rules,
}
use ap_policy.Security.Decision.{
  Check, limits, lo_context, mask_bounds, lo_allowed, type_attribute_bounds_av, compute_av,
}
use ap_policy.Security.TypeRules.Gather.{IsSound, Sees, HasRule, type_rules-see}
use ap_policy.Security.Decision.Limits.{unlimited, limits-test_bit, mask_bounds-test_bit}

-- the rule allows the permission, as a rule of the one table or of the other
abbrev pub te_allows : ℕ → AvtabNode → Bool
te_allows k n = n.key.specified == av_allowed && test_bit n.datum.data_bits k

abbrev pub cond_allows : ℕ → AvtabNode → Bool
cond_allows k n = is_enabled av_allowed n && test_bit n.datum.data_bits k

-- What a policy permits: a rule for attributes of the two types allows the permission, no constraint and no
-- change of role takes it away, and where a type bounds the source's type the policy permits as much for
-- the bounding types.
pub data Permits (pol : Policy) (tclass k : ℕ) : Context → Context → Type 0 where
  unbounded :
      (s t : Context)
      → HasRule (te_allows k) (cond_allows k) pol tclass s t
      → unlimited pol tclass s t k ≡ true
      → (pol.bounds s.type == 0) ≡ true
      → Permits pol tclass k s t
  bounded :
      (s t : Context)
      → HasRule (te_allows k) (cond_allows k) pol tclass s t
      → unlimited pol tclass s t k ≡ true
      → (pol.bounds s.type == 0) ≡ false
      → Permits pol tclass k (lo_context pol s) (lo_context pol t)
      → Permits pol tclass k s t

-- after at most `n` steps to the bounding type there is none
abbrev pub EndsIn : Policy → ℕ → ℕ → Type 0
EndsIn pol zero type = (pol.bounds type == 0) ≡ true
EndsIn pol (suc n) type = ((pol.bounds type == 0) ≡ true) ⊎ EndsIn pol n (pol.bounds type)

allowed-Sees : (k : ℕ) → Sees (λ avd. test_bit avd.allowed k) (te_allows k) (cond_allows k)
unfolding te_node cond_node
allowed-Sees k = record {
  on_te = λ avd n. ground (arith, test_bit-or avd.allowed n.datum.data_bits k);
  on_cond = λ avd n. ground (arith, test_bit-or avd.allowed n.datum.data_bits k);
}

module _ (pol : Policy) (sound : IsSound pol) (tclass : ℕ) where
  type_rules-allowed :
      (s t : Context)
      → (avd : AvDecision) × (type_rules pol tclass s t ≡ some avd)
        × ((k : ℕ)
            → (test_bit avd.allowed k ≡ true)
              ↔ HasRule (te_allows k) (cond_allows k) pol tclass s t)
  type_rules-allowed s t =
      let see = λ (k : ℕ).
        type_rules-see _ _ _ (allowed-Sees k) pol sound tclass s t
          (unfold defaults in test_bit-zero k) in
      (
        (see 0).0,
        (see 0).1,
        λ k.
            let same : (see k).0 ≡ (see 0).0 = cc ((see k).1, (see 0).1) in
            subst
              (λ (avd : AvDecision).
                (test_bit avd.allowed k ≡ true)
                ↔ HasRule (te_allows k) (cond_allows k) pol tclass s t)
              same (see k).2,
      )

  -- a decision that permits what the policy permits
  abbrev pub Decides : Option (Result Check) → Context → Context → Type 0
  Decides out s t =
      (c : Check) × (out ≡ some (ok c))
      × ((k : ℕ) → (test_bit c.avd.allowed k ≡ true) ↔ Permits pol tclass k s t)

  module _ (good : (tclass == 0 || ltb pol.nprim tclass) ≡ false) where
    unbounded-Decides :
        (fuel requested : ℕ) (s t : Context)
        → (pol.bounds s.type == 0) ≡ true
        → Decides (compute_av (suc fuel) pol tclass s t requested) s t
    unfolding compute_av type_attribute_bounds_av
    unbounded-Decides fuel requested s t top =
        let (avd, run, rules) = type_rules-allowed s t in
        (
          limits pol tclass s t requested avd,
          rw (good, run, top) refl,
          λ k.
              let left = limits-test_bit pol tclass s t requested avd k in
              (
                λ h. unbounded s t ((rules k).0 (ground (arith, left))) (ground (arith, left)) top,
                λ p.
                    let (a, b) = rule_first k s t p in
                    let set = (rules k).1 a in ground (arith, left),
              ),
        )
      where
        rule_first :
            (k : ℕ) (s t : Context)
            → Permits pol tclass k s t
            → HasRule (te_allows k) (cond_allows k) pol tclass s t
              × (unlimited pol tclass s t k ≡ true)
        rule_first k s t (unbounded _ _ r u b) = (r, u)
        rule_first k s t (bounded _ _ r u b p) = (r, u)

    bounded-Decides :
        (fuel requested : ℕ) (s t : Context)
        → (pol.bounds s.type == 0) ≡ false
        → ((r : ℕ)
            → Decides
                (compute_av fuel pol tclass (lo_context pol s) (lo_context pol t) r)
                (lo_context pol s)
                (lo_context pol t))
        → Decides (compute_av (suc fuel) pol tclass s t requested) s t
    unfolding compute_av type_attribute_bounds_av
    bounded-Decides fuel requested s t more below =
        let (avd, run, rules) = type_rules-allowed s t in
        let limited = limits pol tclass s t requested avd in
        let (lo, runs, permits) = below limited.requested in
        (
          mask_bounds lo.avd.allowed limited,
          rw (good, run, more, runs) refl,
          λ k.
              let left = limits-test_bit pol tclass s t requested avd k in
              let masked = mask_bounds-test_bit lo.avd.allowed limited k in
              (
                λ h.
                    bounded s t ((rules k).0 (ground (arith, left, masked)))
                      (ground (arith, left, masked)) more ((permits k).0 (ground (arith, masked))),
                λ p.
                    let (a, b, l) = parts k s t more p in
                    let set = (rules k).1 a in
                    let low = (permits k).1 l in ground (arith, left, masked),
              ),
        )
      where
        parts :
            (k : ℕ) (s t : Context)
            → (pol.bounds s.type == 0) ≡ false
            → Permits pol tclass k s t
            → HasRule (te_allows k) (cond_allows k) pol tclass s t
              × (unlimited pol tclass s t k ≡ true)
              × Permits pol tclass k (lo_context pol s) (lo_context pol t)
        parts k s t more (unbounded _ _ r u b) = cc
        parts k s t more (bounded _ _ r u b p) = (r, u, p)

    lo_type :
        (s : Context)
        → (pol.bounds s.type == 0) ≡ false
        → (lo_context pol s).type ≡ pol.bounds s.type
    unfolding lo_context
    lo_type s more = rw more refl

    all-Decides :
        (n requested : ℕ) (s t : Context)
        → EndsIn pol n s.type
        → Decides (compute_av (suc n) pol tclass s t requested) s t
    all-Decides zero requested s t end = unbounded-Decides 0 requested s t end
    all-Decides (suc n) requested s t (inl end) = unbounded-Decides (suc n) requested s t end
    all-Decides (suc n) requested s t (inr later) = elim (Bool-cases (pol.bounds s.type == 0)) [
      | inl end ↦ unbounded-Decides (suc n) requested s t end
      | inr more ↦
          bounded-Decides (suc n) requested s t more
            (λ r. all-Decides n r (lo_context pol s) (lo_context pol t) (rw (lo_type s more) later))
    ]

-- For a policy with well-formed tables and attribute sets, a class that the policy has, and a type of the
-- source from which at most `n` steps to the bounding type lead to one without bounds,
-- `context_struct_compute_av` returns without an error, and the permissions that it allows are
-- exactly those that the policy permits: a rule for attributes of the two types allows the permission,
-- no constraint and no change of role takes it away, and the bounding types have it too.
pub compute_av-Permits :
    (n : ℕ) (pol : Policy) (tclass requested : ℕ) (s t : Context)
    → IsSound pol
    → 1 ≤ tclass
    → tclass ≤ pol.nprim
    → EndsIn pol n s.type
    → (c : Check) × (compute_av (suc n) pol tclass s t requested ≡ some (ok c))
      × ((k : ℕ) → (test_bit c.avd.allowed k ≡ true) ↔ Permits pol tclass k s t)
compute_av-Permits n pol tclass requested s t sound lo hi end =
    all-Decides pol sound tclass (ground arith) n requested s t end
