-- ===== src/Security/Decision/Sound/Audit.antt =====
-- The audit vectors of `context_struct_compute_av`, and what the bounds of a type take away.
use ap_policy.Common.{
  ℕ, suc, ◌≤◌, ◌<◌, ◌≡◌, ◌↔◌, refl, ◌∙◌, subst, Bool, true, false, some, arith, ◌==◌, ltb, ◌&&◌,
  ◌||◌, not, Bool-cases, Option-cases, inl, inr,
}
use ap_policy.Common.Bits.{test_bit, test_bit-or, test_bit-and, test_bit-zero}
use ap_policy.Common.Bits.Masks.{test_bit-low}
use ap_policy.Common.Results.{ok}
use ap_policy.Avtab.{AvtabNode}
use ap_policy.Mls.{Context}
use ap_policy.Security.TypeRules.{
  AvDecision, Policy, av_auditallow, av_auditdeny, is_enabled, te_node, cond_node, defaults,
  type_rules,
}
use ap_policy.Security.Decision.{
  Check, limits, lo_context, lo_allowed, mask_bounds, type_attribute_bounds_av, compute_av,
}
use ap_policy.Security.TypeRules.Gather.{IsSound, Sees, HasRule, type_rules-see}
use ap_policy.Security.Decision.Limits.{SameAudit, limits-SameAudit, mask_bounds-SameAudit}
use ap_policy.Security.Decision.Sound.{EndsIn, Permits, unbounded, bounded, compute_av-Permits}

-- an auditallow rule that names the permission
abbrev pub te_audits : ℕ → AvtabNode → Bool
te_audits k n = n.key.specified == av_auditallow && test_bit n.datum.data_bits k

abbrev pub cond_audits : ℕ → AvtabNode → Bool
cond_audits k n = is_enabled av_auditallow n && test_bit n.datum.data_bits k

-- a dontaudit rule, whose mask leaves the permission out
abbrev pub te_silences : ℕ → AvtabNode → Bool
te_silences k n = n.key.specified == av_auditdeny && not (test_bit n.datum.data_bits k)

abbrev pub cond_silences : ℕ → AvtabNode → Bool
cond_silences k n = is_enabled av_auditdeny n && not (test_bit n.datum.data_bits k)

auditallow-Sees : (k : ℕ) → Sees (λ avd. test_bit avd.auditallow k) (te_audits k) (cond_audits k)
unfolding te_node cond_node
auditallow-Sees k = record {
  on_te = λ avd n. ground (arith, test_bit-or avd.auditallow n.datum.data_bits k);
  on_cond = λ avd n. ground (arith, test_bit-or avd.auditallow n.datum.data_bits k);
}

auditdeny-Sees :
    (k : ℕ) → Sees (λ avd. not (test_bit avd.auditdeny k)) (te_silences k) (cond_silences k)
unfolding te_node cond_node
auditdeny-Sees k = record {
  on_te = λ avd n. ground (arith, test_bit-and avd.auditdeny n.datum.data_bits k);
  on_cond = λ avd n. ground (arith, test_bit-and avd.auditdeny n.datum.data_bits k);
}

-- behind the rules nothing changes the audit vectors
audit_kept :
    (fuel : ℕ) (pol : Policy) (tclass requested : ℕ) (s t : Context) (avd : AvDecision) (c : Check)
    → (tclass == 0 || ltb pol.nprim tclass) ≡ false
    → type_rules pol tclass s t ≡ some avd
    → compute_av (suc fuel) pol tclass s t requested ≡ some (ok c)
    → SameAudit c.avd avd
unfolding compute_av type_attribute_bounds_av
audit_kept fuel pol tclass requested s t avd c good run out =
    let limited = limits pol tclass s t requested avd in
    let kept = limits-SameAudit pol tclass s t requested avd in
    elim (Bool-cases (pol.bounds s.type == 0)) [
      | inl top ↦
          let e : limited ≡ c = cc (rw (good, run, top) at out) in
          subst (λ (c : Check). SameAudit c.avd avd) e kept
      | inr more ↦
          elim (Option-cases
            (compute_av fuel pol tclass (lo_context pol s) (lo_context pol t) limited.requested)) [
              | inl stuck ↦ cc (rw (good, run, more, stuck) at out)
              | inr (lo, e') ↦
                  let e : mask_bounds (lo_allowed lo) limited ≡ c =
                    cc (rw (good, run, more, e') at out) in
                  let m = mask_bounds-SameAudit (lo_allowed lo) limited in
                  subst (λ (c : Check). SameAudit c.avd avd) e
                    (record {
                      auditallow = m.auditallow ∙ kept.auditallow;
                      auditdeny = m.auditdeny ∙ kept.auditdeny;
                    })
            ]
    ]

-- the audit vectors of a decision are those that the rules give
abbrev pub Audits : Policy → ℕ → Context → Context → AvDecision → ℕ → Type 0
Audits pol tclass s t avd k =
    ((test_bit avd.auditallow k ≡ true) ↔ HasRule (te_audits k) (cond_audits k) pol tclass s t)
    × ((not (test_bit avd.auditdeny k) ≡ true)
        ↔ HasRule (te_silences k) (cond_silences k) pol tclass s t)

rules_Audits :
    (pol : Policy) (tclass : ℕ) (s t : Context)
    → IsSound pol
    → (avd : AvDecision) × (type_rules pol tclass s t ≡ some avd)
      × ((k : ℕ) → k < 32 → Audits pol tclass s t avd k)
rules_Audits pol tclass s t sound =
    let all_set = λ (k : ℕ) (h : k < 32).
      let low = test_bit-low 32 k in
      let e : not (test_bit 0xffffffff k) ≡ false = ground arith in e in
    let allow = λ (k : ℕ).
      type_rules-see _ _ _ (auditallow-Sees k) pol sound tclass s t
        (unfold defaults in test_bit-zero k) in
    let deny = λ (k : ℕ) (h : k < 32).
      type_rules-see _ _ _ (auditdeny-Sees k) pol sound tclass s t
        (unfold defaults in all_set k h) in
    (
      (allow 0).0,
      (allow 0).1,
      λ k h.
          let one : (allow k).0 ≡ (allow 0).0 = cc ((allow k).1, (allow 0).1) in
          let two : (deny k h).0 ≡ (allow 0).0 = cc ((deny k h).1, (allow 0).1) in
          (
            subst
                (λ (avd : AvDecision).
                  (test_bit avd.auditallow k ≡ true)
                  ↔ HasRule (te_audits k) (cond_audits k) pol tclass s t)
                one (allow k).2,
            subst
                (λ (avd : AvDecision).
                  (not (test_bit avd.auditdeny k) ≡ true)
                  ↔ HasRule (te_silences k) (cond_silences k) pol tclass s t)
                two (deny k h).2,
          ),
    )

-- For a policy with well-formed tables and attribute sets, a class that the policy has, and a type of the
-- source whose bounds end within `n` steps, `context_struct_compute_av` returns a decision whose
-- `auditallow` has exactly the permissions of which an auditallow rule for attributes of the two types has the
-- bit, and whose `auditdeny` lacks exactly those of which a dontaudit rule has a clear bit; for each of the
-- 32 permissions, whatever the constraints, the roles and the bounds are.
pub compute_av-Audits :
    (n : ℕ) (pol : Policy) (tclass requested : ℕ) (s t : Context)
    → IsSound pol
    → 1 ≤ tclass
    → tclass ≤ pol.nprim
    → EndsIn pol n s.type
    → (c : Check) × (compute_av (suc n) pol tclass s t requested ≡ some (ok c))
      × ((k : ℕ) → k < 32 → Audits pol tclass s t c.avd k)
compute_av-Audits n pol tclass requested s t sound lo hi end =
    let (c, out, _) = compute_av-Permits n pol tclass requested s t sound lo hi end in
    let (avd, run, audits) = rules_Audits pol tclass s t sound in
    let kept = audit_kept n pol tclass requested s t avd c (ground arith) run out in
    (c, out, λ k h. rw (kept.auditallow, kept.auditdeny) (audits k h))

-- For a policy with well-formed tables and attribute sets, a class that the policy has, and a type of the
-- source that is bounded by another, from which at most `n` further steps lead to one without bounds,
-- `context_struct_compute_av` returns for the contexts and for those with the bounding types, and the latter
-- have every permission that the former are allowed.
pub compute_av-bounds :
    (n : ℕ) (pol : Policy) (tclass requested asked : ℕ) (s t : Context)
    → IsSound pol
    → 1 ≤ tclass
    → tclass ≤ pol.nprim
    → (pol.bounds s.type == 0) ≡ false
    → EndsIn pol n (pol.bounds s.type)
    → (c : Check) × (compute_av (suc (suc n)) pol tclass s t requested ≡ some (ok c))
      × (d : Check) × (compute_av (suc n) pol tclass (lo_context pol s) (lo_context pol t) asked
          ≡ some (ok d))
      × ((k : ℕ) → test_bit c.avd.allowed k ≡ true → test_bit d.avd.allowed k ≡ true)
compute_av-bounds n pol tclass requested asked s t sound lo hi more end =
    let (c, out, permits) =
      compute_av-Permits (suc n) pol tclass requested s t sound lo hi (inr end) in
    let bound : (lo_context pol s).type ≡ pol.bounds s.type = unfold lo_context in rw more refl in
    let (d, out', permits') =
      compute_av-Permits n pol tclass asked (lo_context pol s) (lo_context pol t) sound lo hi
        (rw bound end) in
    (c, out, d, out', λ k set. (permits' k).1 (below k s t more ((permits k).0 set)))
  where
    below :
        (k : ℕ) (s t : Context)
        → (pol.bounds s.type == 0) ≡ false
        → Permits pol tclass k s t
        → Permits pol tclass k (lo_context pol s) (lo_context pol t)
    below k s t more (unbounded _ _ r u b) = cc
    below k s t more (bounded _ _ r u b p) = p
