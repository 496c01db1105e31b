-- ===== src/Security/TypeRules/Gather.antt =====
-- What the loops over the type rules gather, told for one bit of one access vector.
use ap_policy.Common.{
  ℕ, suc, ◌≡◌, refl, sym, ◌∙◌, ◌↔◌, inl, inr, Bool, true, false, some, List, [], ◌∷◌, arith, ◌==◌,
  ◌||◌, any, Bool-cases,
}
use ap_policy.Avtab.{Key, AvtabNode}
use ap_policy.Avtab.Table.{IsValid}
use ap_policy.Avtab.Walk.{fold_nodes, for_nodes, rules_of, for_nodes-rules_of}
use ap_policy.Ebitmap.{Ebitmap, get_bit}
use ap_policy.Ebitmap.Walk.Bits.{occurs, for_each_positive_bit-bits}
use ap_policy.Mls.{Context}
use ap_policy.Security.TypeRules.{
  AvDecision, Policy, av_rules, te_node, cond_node, cond_compute_av, av_key, pair_rules, inner_loop,
  outer_loop, attribute_bits, defaults, type_rules,
}

-- the tables and the attribute sets are well-formed
pub record IsSound (pol : Policy) : Type 0 where
  pub te : IsValid pol.te_avtab
  pub cond : IsValid pol.te_cond_avtab
  pub attributes : (type : ℕ) → ap_policy.Ebitmap.Shape.IsValid (pol.type_attr_map type)

-- A bit of a decision, with the rules of the two tables that set it.
pub record Sees (see : AvDecision → Bool) (te cond : AvtabNode → Bool) : Type 0 where
  pub on_te : (avd : AvDecision) (n : AvtabNode) → see (te_node avd n) ≡ (see avd || te n)
  pub on_cond : (avd : AvDecision) (n : AvtabNode) → see (cond_node avd n) ≡ (see avd || cond n)

-- a rule of either table for a pair of attributes
unfoldable pub has_rule : (AvtabNode → Bool) → (AvtabNode → Bool) → Policy → Key → Bool
has_rule te cond pol key =
    any (rules_of pol.te_avtab key) te || any (rules_of pol.te_cond_avtab key) cond

-- a rule of either table for an attribute of the source's type and one of the target's type
abbrev pub HasRule :
    (AvtabNode → Bool) → (AvtabNode → Bool) → Policy → ℕ → Context → Context → Type 0
HasRule te cond pol tclass scontext tcontext =
    (i : ℕ) × (j : ℕ) × (get_bit (pol.type_attr_map scontext.type) i ≡ true)
    × (get_bit (pol.type_attr_map tcontext.type) j ≡ true)
    × (has_rule te cond pol (av_key tclass i j) ≡ true)

fold-see :
    (see : AvDecision → Bool) (body : AvDecision → AvtabNode → AvDecision) (test : AvtabNode → Bool)
    → ((avd : AvDecision) (n : AvtabNode) → see (body avd n) ≡ (see avd || test n))
    → (avd : AvDecision) (ns : List AvtabNode)
    → see (fold_nodes body av_rules avd ns) ≡ (see avd || any ns test)
fold-see see body test on avd [] = ground arith
fold-see see body test on avd (n ∷ ns) =
    ground (arith, fold-see see body test on (body avd n) ns, on avd n)

module _ (see : AvDecision → Bool) (te cond : AvtabNode → Bool) (sees : Sees see te cond)
    (pol : Policy) (sound : IsSound pol) (tclass : ℕ) where
  pair_rules-see :
      (i j : ℕ) (avd : AvDecision)
      → see (pair_rules pol tclass i j avd) ≡ (see avd || has_rule te cond pol (av_key tclass i j))
  unfolding pair_rules cond_compute_av has_rule
  pair_rules-see i j avd =
      let key = av_key tclass i j in
      let specified : key.specified ≡ av_rules = unfold av_key in refl in
      rw
        (
          for_nodes-rules_of cond_node av_rules pol.te_cond_avtab key
              (for_nodes te_node pol.te_avtab key avd) sound.cond specified,
          for_nodes-rules_of te_node av_rules pol.te_avtab key avd sound.te specified,
          fold-see see cond_node cond sees.on_cond,
          fold-see see te_node te sees.on_te,
        )
        (ground arith)

  inner_loop-see :
      (i : ℕ) (js : List ℕ) (avd : AvDecision)
      → see (inner_loop pol tclass i js avd)
        ≡ (see avd || any js (λ j. has_rule te cond pol (av_key tclass i j)))
  unfolding inner_loop
  inner_loop-see i [] avd = ground arith
  inner_loop-see i (j ∷ js) avd =
      ground (arith, inner_loop-see i js (pair_rules pol tclass i j avd), pair_rules-see i j avd)

  outer_loop-see :
      (is js : List ℕ) (avd : AvDecision)
      → see (outer_loop pol tclass is js avd)
        ≡ (see avd || any is (λ i. any js (λ j. has_rule te cond pol (av_key tclass i j))))
  unfolding outer_loop
  outer_loop-see [] js avd = ground arith
  outer_loop-see (i ∷ is) js avd =
      ground (arith, outer_loop-see is js (inner_loop pol tclass i js avd), inner_loop-see i js avd)

-- some visited bit passes a test
any_iff :
    (e : Ebitmap) (xs : List ℕ) (p : ℕ → Bool)
    → ((i : ℕ) → occurs i xs ≡ get_bit e i)
    → (any xs p ≡ true) ↔ ((i : ℕ) × (get_bit e i ≡ true) × (p i ≡ true))
any_iff e xs p bits = (
  λ h. let (i, o, t) = found xs h in (i, sym (bits i) ∙ o, t),
  λ w. passes xs w.0 (bits w.0 ∙ w.1) w.2,
)
  where
    found : (xs : List ℕ) → any xs p ≡ true → (i : ℕ) × (occurs i xs ≡ true) × (p i ≡ true)
    found [] h = cc
    found (x ∷ xs) h = elim (Bool-cases (p x)) [
      | inl now ↦ (x, ground arith, now)
      | inr later ↦ let (i, o, t) = found xs (ground arith) in (i, ground (arith, o), t)
    ]

    passes : (xs : List ℕ) (i : ℕ) → occurs i xs ≡ true → p i ≡ true → any xs p ≡ true
    passes [] i o t = cc
    passes (x ∷ xs) i o t = elim (Bool-cases (i == x)) [
      | inl same ↦ let e : i ≡ x = ground arith in let t' : p x ≡ true = rw e at t in rw t' refl
      | inr other ↦ ground (arith, passes xs i (ground arith) t)
    ]

-- The computation of the rules ends; a bit that the defaults clear is set exactly when a rule for the two
-- types sets it.
pub type_rules-see :
    (see : AvDecision → Bool) (te cond : AvtabNode → Bool)
    → Sees see te cond
    → (pol : Policy) → IsSound pol
    → (tclass : ℕ) (scontext tcontext : Context) → see (defaults pol.latest_granting) ≡ false
    → (avd : AvDecision) × (type_rules pol tclass scontext tcontext ≡ some avd)
      × ((see avd ≡ true) ↔ HasRule te cond pol tclass scontext tcontext)
unfolding type_rules attribute_bits
type_rules-see see te cond sees pol sound tclass scontext tcontext clear =
    let sattr = pol.type_attr_map scontext.type in
    let tattr = pol.type_attr_map tcontext.type in
    let (is, runs, _, sbits) =
      for_each_positive_bit-bits (suc sattr.highbit) sattr (sound.attributes scontext.type)
        (omega arith) in
    let (js, runt, _, tbits) =
      for_each_positive_bit-bits (suc tattr.highbit) tattr (sound.attributes tcontext.type)
        (omega arith) in
    let avd = outer_loop pol tclass is js (defaults pol.latest_granting) in
    let out =
      outer_loop-see see te cond sees pol sound tclass is js (defaults pol.latest_granting) in
    let s = any_iff sattr is (λ i. any js (λ j. has_rule te cond pol (av_key tclass i j))) sbits in
    let t = λ (i : ℕ). any_iff tattr js (λ j. has_rule te cond pol (av_key tclass i j)) tbits in
    (
      avd,
      rw (type_rules, attribute_bits, runs, runt) refl,
      (
        λ h.
            let (i, b, some_j) = s.0 (ground (arith, out)) in
            let (j, b', rule) = (t i).0 some_j in (i, j, b, b', rule),
        λ w. let r = s.1 (w.0, w.2, (t w.0).1 (w.1, w.3, w.4)) in ground (arith, out),
      ),
    )
