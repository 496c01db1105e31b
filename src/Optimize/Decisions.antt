-- ===== src/Optimize/Decisions.antt =====
-- A policy decides the same before and behind `optimize_avtab`.
use ap_policy.Common.{
  ℕ, zero, false, ◌==◌, Bool-cases, suc, ◌<◌, ◌≤◌, ◌≡◌, refl, subst, some, List, length, arith, not,
  eq_of_iff, inl, inr,
}
use ap_policy.Common.Bits.{test_bit}
use ap_policy.Common.Results.{ok}
use ap_policy.Avtab.{Avtab}
use ap_policy.Ebitmap.{Ebitmap}
use ap_policy.Mls.{Context}
use ap_policy.Optimize.{Types, build_type_map, optimize_avtab}
use ap_policy.Optimize.Masks.{allow, auditallow, auditdeny, holds}
use ap_policy.Optimize.Covering.{SameRules}
use ap_policy.Optimize.Walks.{TablePlain}
use ap_policy.Optimize.TypeMap.{IsCoherent, types_only-small, build_type_map-Includes}
use ap_policy.Optimize.Laws.{with_table, HasType, attrs_of, HasRule-SameRules, optimize_avtab-Kept}
use ap_policy.Security.TypeRules.{Policy, AvDecision}
use ap_policy.Security.Decision.{Check, compute_av, lo_context, env_of}
use ap_policy.Security.TypeRules.Gather.{IsSound, HasRule}
use ap_policy.Security.Decision.Limits.{unlimited}
use ap_policy.Security.Decision.Sound.{
  EndsIn, Permits, unbounded, bounded, te_allows, cond_allows, compute_av-Permits,
}
use ap_policy.Security.Decision.Sound.Audit.{Audits, cond_audits, cond_silences, compute_av-Audits}

-- the permissions of two decisions are the same
pub record SameBits (a b : AvDecision) (k : ℕ) : Type 0 where
  pub allowed : test_bit a.allowed k ≡ test_bit b.allowed k
  pub auditallow : test_bit a.auditallow k ≡ test_bit b.auditallow k
  pub auditdeny : test_bit a.auditdeny k ≡ test_bit b.auditdeny k

EndsIn-with_table :
    (pol : Policy) (tab : Avtab) (n type : ℕ)
    → EndsIn pol n type
    → EndsIn (with_table pol tab) n type
EndsIn-with_table pol tab zero type e = e
EndsIn-with_table pol tab (suc n) type (inl e) = inl e
EndsIn-with_table pol tab (suc n) type (inr e) =
    inr (EndsIn-with_table pol tab n (pol.bounds type) e)

module _ (pol : Policy) (tab tab' : Avtab) (ts : Types)
    (same : SameRules (attrs_of pol ts) tab tab')
    (bounded_by : (type : ℕ)
      → HasType ts type
      → (pol.bounds type == 0) ≡ false
      → HasType ts (pol.bounds type))
    (tclass : ℕ) where
  module _ (s t : Context) (hs : HasType ts s.type) (ht : HasType ts t.type) where
    allow_rules :
        (k : ℕ)
        → k < 32
        → HasRule (te_allows k) (cond_allows k) (with_table pol tab) tclass s t
        → HasRule (te_allows k) (cond_allows k) (with_table pol tab') tclass s t
    unfolding holds
    allow_rules k lt =
        (HasRule-SameRules pol ts tab tab' same 1 k tclass (cond_allows k) s t (allow refl) lt hs
          ht).0

  Permits-SameRules :
      (k : ℕ)
      → k < 32
      → (s t : Context) → HasType ts s.type
      → HasType ts t.type
      → Permits (with_table pol tab) tclass k s t
      → Permits (with_table pol tab') tclass k s t
  unfolding unlimited lo_context env_of
  Permits-SameRules k lt _ _ hs ht (unbounded s t r u b) =
      unbounded s t (allow_rules s t hs ht k lt r) u b
  Permits-SameRules k lt _ _ hs ht (bounded s t r u b p) =
      bounded s t (allow_rules s t hs ht k lt r) u b (
        Permits-SameRules k lt (lo_context pol s) (lo_context pol t) (lo_type s hs) (lo_type t ht)
          p)
    where
      lo_type : (c : Context) → HasType ts c.type → HasType ts (lo_context pol c).type
      lo_type c h = elim (Bool-cases (pol.bounds c.type == 0)) [
        | inl top ↦ rw (top) h
        | inr more ↦ rw (more) (bounded_by c.type h more)
      ]

SameRules-sym : (attrs : ℕ → Ebitmap) (a b : Avtab) → SameRules attrs a b → SameRules attrs b a
SameRules-sym attrs a b p = record {
  covered = λ kind k tclass v w av lt. let x = p.covered kind k tclass v w av lt in (x.1, x.0);
}

module _ (pol : Policy) (tab tab' : Avtab) (ts : Types)
    (same : SameRules (attrs_of pol ts) tab tab')
    (bounded_by : (type : ℕ)
      → HasType ts type
      → (pol.bounds type == 0) ≡ false
      → HasType ts (pol.bounds type))
    (tclass : ℕ) (s t : Context) (hs : HasType ts s.type) (ht : HasType ts t.type) where
  audit_bits :
      (a b : AvDecision) (k : ℕ)
      → k < 32
      → Audits (with_table pol tab) tclass s t a k
      → Audits (with_table pol tab') tclass s t b k
      → (test_bit a.auditallow k ≡ test_bit b.auditallow k)
        × (test_bit a.auditdeny k ≡ test_bit b.auditdeny k)
  unfolding holds
  audit_bits a b k lt p q =
      let audits =
        HasRule-SameRules pol ts tab tab' same 2 k tclass (cond_audits k) s t (auditallow refl) lt
          hs ht in
      let silences =
        HasRule-SameRules pol ts tab tab' same 4 k tclass (cond_silences k) s t (auditdeny refl) lt
          hs ht in
      let deny =
        eq_of_iff (not (test_bit a.auditdeny k)) (not (test_bit b.auditdeny k))
          (λ h. q.1.1 (silences.0 (p.1.0 h))) (λ h. p.1.1 (silences.1 (q.1.0 h))) in
      (
        eq_of_iff _ _ (λ h. q.0.1 (audits.0 (p.0.0 h))) (λ h. p.0.1 (audits.1 (q.0.0 h))),
        ground arith,
      )

  -- the two policies return decisions with the same permissions
  SameRules-SameBits :
      (n requested : ℕ)
      → IsSound (with_table pol tab)
      → IsSound (with_table pol tab')
      → 1 ≤ tclass
      → tclass ≤ pol.nprim
      → EndsIn pol n s.type
      → (c : Check) × (compute_av (suc n) (with_table pol tab) tclass s t requested ≡ some (ok c))
        × (c' : Check) × (compute_av (suc n) (with_table pol tab') tclass s t requested
            ≡ some (ok c'))
        × ((k : ℕ) → k < 32 → SameBits c.avd c'.avd k)
  SameRules-SameBits n requested sound sound' lo hi end =
      let end1 = EndsIn-with_table pol tab n s.type end in
      let end2 = EndsIn-with_table pol tab' n s.type end in
      let (c, run, permits) =
        compute_av-Permits n (with_table pol tab) tclass requested s t sound lo hi end1 in
      let (c', run', permits') =
        compute_av-Permits n (with_table pol tab') tclass requested s t sound' lo hi end2 in
      let (d, drun, audits) =
        compute_av-Audits n (with_table pol tab) tclass requested s t sound lo hi end1 in
      let (d', drun', audits') =
        compute_av-Audits n (with_table pol tab') tclass requested s t sound' lo hi end2 in
      let e : d ≡ c = cc (run, drun) in
      let e' : d' ≡ c' = cc (run', drun') in
      let back = SameRules-sym (attrs_of pol ts) tab tab' same in
      (
        c,
        run,
        c',
        run',
        λ k lt.
            let (x, y) =
              audit_bits c.avd c'.avd k lt
                (subst (λ (c : Check). Audits (with_table pol tab) tclass s t c.avd k) e
                  (audits k lt))
                (subst (λ (c : Check). Audits (with_table pol tab') tclass s t c.avd k) e'
                  (audits' k lt)) in
            record {
              allowed =
                  eq_of_iff _ _
                    (λ h. (permits' k).1 (
                      Permits-SameRules pol tab tab' ts same bounded_by tclass k lt s t hs ht
                        ((permits k).0 h)))
                    (λ h. (permits k).1 (
                      Permits-SameRules pol tab' tab ts back bounded_by tclass k lt s t hs ht
                        ((permits' k).0 h)));
              auditallow = x;
              auditdeny = y;
            },
      )

-- `build_type_map` returns a map with which `optimize_avtab` leaves a policy that decides as before: for
-- every pair of contexts whose types are types of the policy and not attributes, a class that the policy has,
-- and the bounds of the source's type ending within `n` steps, `context_struct_compute_av` returns with and
-- without the redundant rules, and the allowed permissions and both audit vectors are the same at each of the
-- 32 bits. The tables and the sets have to be well-formed, the sets of the types and of the attributes in
-- agreement with numbers below 2^16, the bounds of a type have to be types, and the access vector rules need
-- a kind each and masks of 32 bits.
pub optimize_avtab-SameBits :
    (n : ℕ) (pol : Policy) (ts : Types) (tclass requested : ℕ) (s t : Context)
    → IsSound pol
    → TablePlain pol.te_avtab
    → pol.te_avtab.nslot ≤ length pol.te_avtab.htable
    → IsCoherent ts pol.type_attr_map
    → ((type : ℕ) → HasType ts type → (pol.bounds type == 0) ≡ false → HasType ts (pol.bounds type))
    → 1 ≤ tclass
    → tclass ≤ pol.nprim
    → EndsIn pol n s.type
    → HasType ts s.type
    → HasType ts t.type
    → (type_map : List (List ℕ)) × (build_type_map ts ≡ some type_map)
      × (c : Check) × (compute_av (suc n) pol tclass s t requested ≡ some (ok c))
      × (c' : Check) × (compute_av
            (suc n)
            (with_table pol (optimize_avtab type_map pol.te_avtab))
            tclass
            s
            t
            requested
          ≡ some (ok c'))
      × ((k : ℕ) → k < 32 → SameBits c.avd c'.avd k)
optimize_avtab-SameBits n pol ts tclass requested s t sound plain room coherent bounded_by lo hi end
      hs ht =
    let (type_map, built, includes) = build_type_map-Includes ts pol.type_attr_map coherent in
    let kept =
      optimize_avtab-Kept (attrs_of pol ts) (types_only-small ts pol.type_attr_map coherent)
        type_map includes pol.te_avtab sound.te plain room in
    let sound' : IsSound (with_table pol (optimize_avtab type_map pol.te_avtab)) = record {
      te = kept.valid;
      cond = sound.cond;
      attributes = sound.attributes;
    } in
    let (c, run, c', run', bits) =
      SameRules-SameBits pol pol.te_avtab (optimize_avtab type_map pol.te_avtab) ts kept.same
        bounded_by tclass s t hs ht n requested sound sound' lo hi end in
    (type_map, built, c, run, c', run', bits)
