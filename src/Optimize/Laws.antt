-- ===== src/Optimize/Laws.antt =====
-- `optimize_avtab` does not change the decisions of the policy.
use ap_policy.Common.Buckets.{chain_at, put_chain-chain_at}
use ap_policy.Common.{
  ℕ, zero, suc, ◌+◌, ◌-◌, ◌^◌, ◌<◌, ◌≤◌, ◌≡◌, ◌↔◌, refl, sym, ap, subst, ◌∙◌, Bool, true, List, [],
  length, arith, any, Bool-cases, inl, inr,
}
use ap_policy.Avtab.{AvtabNode, Avtab}
use ap_policy.Avtab.Table.{IsValid}
use ap_policy.Avtab.Walk.{rules_of}
use ap_policy.Ebitmap.{Ebitmap, get_bit}
use ap_policy.Mls.{Context}
use ap_policy.Optimize.TypeMap.{is_type, types_only, types_only-same}
use ap_policy.Optimize.{Types, with_chain, types_at, optimize_chain, optimize_slots, optimize_avtab}
use ap_policy.Optimize.Masks.{IsAv}
use ap_policy.Optimize.Rules.{rule_test, hit, hit-rules_of}
use ap_policy.Optimize.Covering.{SameRules, SameRules-refl, Covered, Includes}
use ap_policy.Optimize.Walks.{TablePlain, ListAll}
use ap_policy.Optimize.Slots.{Kept, optimize_chain-Kept}
use ap_policy.Security.TypeRules.{Policy, av_key}
use ap_policy.Security.TypeRules.Gather.{HasRule, has_rule}

refill : (h : Avtab) (i : ℕ) → with_chain h i (chain_at i h.htable) ≡ h
unfolding with_chain
refill h i = ap (λ t. record h { htable = t }) (put_chain-chain_at i h.htable)

module _ (attrs : ℕ → Ebitmap) (small : (v i : ℕ) → get_bit (attrs v) i ≡ true → i + 1 < 2 ^ 16)
    (type_map : List (List ℕ))
    (includes : (a : ℕ) → ListAll (Includes attrs a) (types_at type_map a)) where
  optimize_slots-Kept :
      (rounds i : ℕ) (h0 h : Avtab)
      → i + rounds ≤ length h0.htable
      → Kept attrs h0 h
      → Kept attrs h0 (optimize_slots type_map rounds i h)
  unfolding optimize_slots
  optimize_slots-Kept zero i h0 h fits k = k
  optimize_slots-Kept (suc rounds) i h0 h fits k =
      optimize_slots-Kept rounds (i + 1) h0 (optimize_chain type_map i h [] (chain_at i h.htable))
        (omega arith)
        (optimize_chain-Kept attrs small type_map includes i h0 h [] (chain_at i h.htable)
          (omega (arith, k.size)) (subst (Kept attrs h0) (sym (refill h i)) k))

  pub optimize_avtab-Kept :
      (tab : Avtab)
      → IsValid tab
      → TablePlain tab
      → tab.nslot ≤ length tab.htable
      → Kept attrs tab (optimize_avtab type_map tab)
  unfolding optimize_avtab
  optimize_avtab-Kept tab v p room =
      optimize_slots-Kept tab.nslot 0 tab tab (omega arith)
        (record { valid = v; plain = p; same = SameRules-refl attrs tab; size = refl })

-- the policy with its table optimized
abbrev pub optimized : Policy → List (List ℕ) → Policy
optimized pol type_map = record pol { te_avtab = optimize_avtab type_map pol.te_avtab }

-- the policy with another unconditional table
abbrev pub with_table : Policy → Avtab → Policy
with_table pol tab = record pol { te_avtab = tab }

-- a context's type is one of the policy's
abbrev pub HasType : Types → ℕ → Type 0
HasType ts type = (1 ≤ type) × (is_type ts (type - 1) ≡ true)

module _ (pol : Policy) (ts : Types) where
  abbrev pub attrs_of : ℕ → Ebitmap
  attrs_of = types_only ts pol.type_attr_map

  -- the set of a type stands for it
  attrs_of-same : (type : ℕ) → HasType ts type → attrs_of (suc (type - 1)) ≡ pol.type_attr_map type
  attrs_of-same type (pos, h) =
      let e : suc (type - 1) ≡ type = omega arith in
      types_only-same ts pol.type_attr_map (type - 1) h ∙ ap pol.type_attr_map e

  -- rules for the types of two contexts, in two tables of which the second covers what the first does
  HasRule-Covered :
      (kind k tclass : ℕ) (cond : AvtabNode → Bool) (s t : Context)
      → HasType ts s.type
      → HasType ts t.type
      → (tab tab' : Avtab)
      → ((v w : ℕ)
          → Covered attrs_of kind k tab tclass v w
          → Covered attrs_of kind k tab' tclass v w)
      → HasRule (rule_test kind k) cond (with_table pol tab) tclass s t
      → HasRule (rule_test kind k) cond (with_table pol tab') tclass s t
  unfolding has_rule av_key
  HasRule-Covered kind k tclass cond s t hs ht tab tab' go (i, j, bi, bj, r) =
      let key = av_key tclass i j in
      let e = attrs_of-same s.type hs in
      let e' = attrs_of-same t.type ht in
      elim (Bool-cases (any (rules_of tab key) (rule_test kind k))) [
        | inr from_cond ↦ (i, j, bi, bj, ground arith)
        | inl from_te ↦
            let h : hit kind k tab key ≡ true = sym (hit-rules_of kind k tab key refl) ∙ from_te in
            let (i', j', bi', bj', h') =
              go (s.type - 1) (t.type - 1)
                (i, j, ap (λ m. get_bit m i) e ∙ bi, ap (λ m. get_bit m j) e' ∙ bj, h) in
            let r' : any (rules_of tab' (av_key tclass i' j')) (rule_test kind k) ≡ true =
              hit-rules_of kind k tab' (av_key tclass i' j') refl ∙ h' in
            (
              i',
              j',
              sym (ap (λ m. get_bit m i') e) ∙ bi',
              sym (ap (λ m. get_bit m j') e') ∙ bj',
              rw r' refl,
            )
      ]

  -- two policies whose tables have the same rules
  pub HasRule-SameRules :
      (tab tab' : Avtab)
      → SameRules attrs_of tab tab'
      → (kind k tclass : ℕ) (cond : AvtabNode → Bool) (s t : Context) → IsAv kind
      → k < 32
      → HasType ts s.type
      → HasType ts t.type
      → HasRule (rule_test kind k) cond (with_table pol tab) tclass s t
        ↔ HasRule (rule_test kind k) cond (with_table pol tab') tclass s t
  HasRule-SameRules tab tab' same kind k tclass cond s t is_av lt hs ht = (
    λ r.
        HasRule-Covered kind k tclass cond s t hs ht tab tab'
          (λ v w. (same.covered kind k tclass v w is_av lt).0) r,
    λ r.
        HasRule-Covered kind k tclass cond s t hs ht tab' tab
          (λ v w. (same.covered kind k tclass v w is_av lt).1) r,
  )
