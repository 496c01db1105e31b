-- ===== src/Optimize/Rules.antt =====
-- Whether a table has a rule for a pair of attributes, and when a change of one rule keeps that.
use ap_policy.Common.Buckets.{chain_at, chain_at-put_chain}
use ap_policy.Common.{
  ℕ, ◌<◌, ◌≡◌, ◌⊎◌, inl, inr, refl, ap, ◌∙◌, Bool, true, false, List, [], ◌∷◌, ◌++◌, length, any,
  arith, ◌==◌, if◌then◌else◌, ◌&&◌, ◌||◌, Bool-cases,
}
use ap_policy.Avtab.{Key, Datum, AvtabNode, Avtab, hash, kinds, matches}
use ap_policy.Avtab.Walk.{selected, rules_of}
use ap_policy.Optimize.{with_chain}
use ap_policy.Optimize.Masks.{holds}
use ap_policy.Security.TypeRules.{av_rules}

-- the rule is of the kind and has the permission
abbrev pub rule_test : ℕ → ℕ → AvtabNode → Bool
rule_test kind k n = n.key.specified == kind && holds kind k n.datum

-- the chain has such a rule for the key
abbrev pub some_rule : ℕ → ℕ → Key → List AvtabNode → Bool
some_rule kind k key [] = false
some_rule kind k key (n ∷ ns) =
    (matches key av_rules n.key && rule_test kind k n) || some_rule kind k key ns

unfoldable pub hit : ℕ → ℕ → Avtab → Key → Bool
hit kind k h key = some_rule kind k key (chain_at (hash key h.mask) h.htable)

some_rule-selected :
    (kind k : ℕ) (key : Key) (chain : List AvtabNode)
    → any (selected key av_rules chain) (rule_test kind k) ≡ some_rule kind k key chain
unfolding selected
some_rule-selected kind k key [] = refl
some_rule-selected kind k key (n ∷ ns) = elim (Bool-cases (matches key av_rules n.key)) [
  | inl here ↦ rw (here, some_rule-selected kind k key ns) refl
  | inr other ↦ rw (other, some_rule-selected kind k key ns) refl
]

pub hit-rules_of :
    (kind k : ℕ) (h : Avtab) (key : Key)
    → key.specified ≡ av_rules
    → any (rules_of h key) (rule_test kind k) ≡ hit kind k h key
unfolding rules_of hit
hit-rules_of kind k h key e =
    let chain = chain_at (hash key h.mask) h.htable in
    ap (λ specified. any (selected key (kinds specified) chain) (rule_test kind k)) e
    ∙ some_rule-selected kind k key chain

pub some_rule-append :
    (kind k : ℕ) (key : Key) (xs ys : List AvtabNode)
    → some_rule kind k key (xs ++ ys) ≡ (some_rule kind k key xs || some_rule kind k key ys)
some_rule-append kind k key [] ys = refl
some_rule-append kind k key (x ∷ xs) ys = ground (arith, some_rule-append kind k key xs ys)

-- a table with another chain in a slot
pub hit-with_chain :
    (kind k : ℕ) (h : Avtab) (slot : ℕ) (chain : List AvtabNode) (key : Key)
    → slot < length h.htable
    → hit kind k (with_chain h slot chain) key
      ≡ (if hash key h.mask == slot then some_rule kind k key chain else hit kind k h key)
unfolding hit with_chain
hit-with_chain kind k h slot chain key room =
    rw (chain_at-put_chain slot (hash key h.mask) chain h.htable room)
      (elim (Bool-cases (hash key h.mask == slot)) [
        | inl here ↦ rw here refl
        | inr other ↦ rw other refl
      ])

-- the rule in the middle of a chain has another datum
module _ (kind k : ℕ) (h : Avtab) (slot : ℕ) (room : slot < length h.htable)
    (front : List AvtabNode) (x : AvtabNode) (back : List AvtabNode) where
  abbrev pub at_datum : Datum → Avtab
  at_datum d = with_chain h slot (front ++ (record x { datum = d } ∷ back))

  middle :
      (key : Key) (d : Datum)
      → hit kind k (at_datum d) key ≡ (
          if hash key h.mask == slot
          then some_rule kind k key front
            || ((matches key av_rules x.key && rule_test kind k (record x { datum = d }))
                || some_rule kind k key back)
          else hit kind k h key)
  middle key d =
      rw (hit-with_chain kind k h slot (front ++ (record x { datum = d } ∷ back)) key room)
        (rw (some_rule-append kind k key front (record x { datum = d } ∷ back)) refl)

  -- a rule with fewer permissions gives no new one
  pub fewer-hit :
      (key : Key) (d d' : Datum)
      → (rule_test kind k (record x { datum = d' }) ≡ true
          → rule_test kind k (record x { datum = d }) ≡ true)
      → hit kind k (at_datum d') key ≡ true
      → hit kind k (at_datum d) key ≡ true
  fewer-hit key d d' fewer h =
      let a = middle key d in
      let b = middle key d' in
      elim (Bool-cases (rule_test kind k (record x { datum = d' }))) [
        | inl set ↦ let set' = fewer set in ground arith
        | inr clear ↦ ground arith
      ]

  -- the permission is kept, or it was this rule's
  pub kept-hit :
      (key : Key) (d d' : Datum)
      → hit kind k (at_datum d) key ≡ true
      → (hit kind k (at_datum d') key ≡ true)
        ⊎ ((matches key av_rules x.key ≡ true)
            × (rule_test kind k (record x { datum = d }) ≡ true)
            × (rule_test kind k (record x { datum = d' }) ≡ false))
  kept-hit key d d' h =
      let a = middle key d in
      let b = middle key d' in
      elim (Bool-cases (hit kind k (at_datum d') key)) [
        | inl still ↦ inl still
        | inr lost ↦ inr (ground arith, ground arith, ground arith)
      ]

  -- a rule without the permission may go
  pub without-hit :
      (key : Key) (d : Datum)
      → rule_test kind k (record x { datum = d }) ≡ false
      → hit kind k (with_chain h slot (front ++ back)) key ≡ hit kind k (at_datum d) key
  without-hit key d clear =
      let a = middle key d in
      let b = hit-with_chain kind k h slot (front ++ back) key room in
      let c = some_rule-append kind k key front back in ground arith
