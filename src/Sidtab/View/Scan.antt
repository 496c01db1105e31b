-- ===== src/Sidtab/View/Scan.antt =====
-- The scan of all chains for a context.
use ap_policy.Common.{
  ℕ, zero, suc, ◌<◌, ◌≡◌, ◌≢◌, refl, sym, ap, subst, ◌∙◌, false, some, List, [], ◌∷◌, arith, ◌==◌,
  Bool-cases, inl, inr, length, if◌then◌else◌,
}
use ap_policy.Common.Buckets.{chain_at}
use ap_policy.Mls.{Context}
use ap_policy.Sidtab.{SidNode, Sidtab, hash, search_chain, context_chains, search_context}
use ap_policy.Sidtab.Chain.{
  Ascending, first_sid, context_chain-first_sid, first_sid-Scanned, search_chain-All,
}
use ap_policy.Sidtab.View.{IsValid, Placed, view}

-- the SID in the first chain with the context, and 0 where there is none
pub scan : Context → List (List SidNode) → ℕ
scan context [] = 0
scan context (c ∷ cs) =
    let sid = first_sid context c in
    let others = scan context cs in if sid == 0 then others else sid

context_chains-scan :
    (c : Context) (cs : List (List SidNode))
    → ((i : ℕ) → Ascending 1 (chain_at i cs))
    → context_chains c cs ≡ scan c cs
unfolding context_chains scan chain_at
context_chains-scan c [] a = refl
context_chains-scan c (x ∷ cs) a =
    let others = context_chains-scan c cs (λ i. a (suc i)) in
    let first = context_chain-first_sid 1 c x (omega arith) (a 0) in
    elim (Bool-cases (first_sid c x == 0)) [
      | inl gone ↦ rw (context_chains, scan, first, gone, others) refl
      | inr here ↦ rw (context_chains, scan, first, here) refl
    ]

pub search_context-scan :
    (s : Sidtab) (c : Context) → IsValid s → search_context s c ≡ scan c s.htable
unfolding search_context
search_context-scan s c v = context_chains-scan c s.htable v.ascending

-- nothing found: no chain has the context
pub scan-zero :
    (c : Context) (cs : List (List SidNode)) (i : ℕ)
    → scan c cs ≡ 0
    → first_sid c (chain_at i cs) ≡ 0
unfolding scan first_sid chain_at
scan-zero c [] i h = refl
scan-zero c (x ∷ cs) zero h = ground arith
scan-zero c (x ∷ cs) (suc i) h = scan-zero c cs i (ground arith)

-- something found: one chain has it
scan-pos :
    (c : Context) (cs : List (List SidNode))
    → scan c cs ≢ 0
    → (i : ℕ) × (first_sid c (chain_at i cs) ≡ scan c cs)
unfolding scan first_sid chain_at
scan-pos c [] h = absurd (h refl)
scan-pos c (x ∷ cs) h = elim (Bool-cases (first_sid c x == 0)) [
  | inl none_here ↦
      let r = scan-pos c cs (rw (none_here, scan) at h) in (suc r.0, rw (none_here, scan) r.1)
  | inr here ↦ (0, rw (here, scan) refl)
]

scan-zeros :
    (c : Context) (cs : List (List SidNode))
    → ((j : ℕ) → first_sid c (chain_at j cs) ≡ 0)
    → scan c cs ≡ 0
unfolding scan first_sid chain_at
scan-zeros c [] zeros = refl
scan-zeros c (x ∷ cs) zeros = ground (arith, zeros 0, scan-zeros c cs (λ j. zeros (suc j)))

-- one chain only has it
pub scan-only :
    (c : Context) (cs : List (List SidNode)) (i : ℕ)
    → i < length cs
    → ((j : ℕ) → (j == i) ≡ false → first_sid c (chain_at j cs) ≡ 0)
    → scan c cs ≡ first_sid c (chain_at i cs)
unfolding scan first_sid chain_at
scan-only c [] i h zeros = absurd (omega arith)
scan-only c (x ∷ cs) zero h zeros =
    let rest = scan-zeros c cs (λ j. zeros (suc j) (ground arith)) in ground arith
scan-only c (x ∷ cs) (suc i) h zeros =
    let rest = scan-only c cs i (omega arith) (λ j p. zeros (suc j) (ground arith)) in
    let none_here = zeros 0 (ground arith) in ground arith

-- what the scan of a valid table finds
pub record Found (s : Sidtab) (c : Context) (sid : ℕ) : Type 0 where
  pub hit : sid ≢ 0 → view s sid ≡ some c
  pub miss : sid ≡ 0 → (k : ℕ) → view s k ≢ some c

scan-Found : (s : Sidtab) (c : Context) → IsValid s → Found s c (scan c s.htable)
unfolding view
scan-Found s c v = record {
  hit = λ h.
      let (i, same) = scan-pos c s.htable h in
      let scan = first_sid-Scanned 1 c (chain_at i s.htable) (omega arith) (v.ascending i) in
      let got = scan.hit (λ z. h (sym same ∙ z)) in
      let placed =
        search_chain-All (Placed i s.next_sid) _ c (chain_at i s.htable) (v.placed i) got in
      let at_slot : search_chain (first_sid c (chain_at i s.htable))
            (chain_at (hash (first_sid c (chain_at i s.htable))) s.htable)
          ≡ some c =
        ap (λ j. search_chain (first_sid c (chain_at i s.htable)) (chain_at j s.htable)) placed.0
        ∙ got in
      subst (λ k. search_chain k (chain_at (hash k) s.htable) ≡ some c) same at_slot;
  miss = λ h k.
      (first_sid-Scanned 1 c (chain_at (hash k) s.htable) (omega arith) (v.ascending (hash k))).miss
        (scan-zero c s.htable (hash k) h) k;
}

pub search_context-Found : (s : Sidtab) (c : Context) → IsValid s → Found s c (search_context s c)
search_context-Found s c v = subst (Found s c) (sym (search_context-scan s c v)) (scan-Found s c v)
