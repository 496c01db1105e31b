-- ===== src/Optimize/Table.antt =====
-- Tables with the same rules for all pairs of types, and what `process_avtab_datum` does to a table.
use ap_policy.Common.Buckets.{chain_at}
use ap_policy.Common.{
  ℕ, ◌^◌, ◌<◌, ◌≡◌, refl, sym, ap, subst, ◌∙◌, true, false, some, List, [], ◌∷◌, ◌++◌, arith, ◌==◌,
  bit_and,
}
use ap_policy.Avtab.{Key, Datum, AvtabNode, Avtab, hash, kinds, matches, search}
use ap_policy.Avtab.Found.{search-Split, hash-types}
use ap_policy.Optimize.{covering_key}
use ap_policy.Optimize.Masks.{holds, IsAv, allow, auditallow, auditdeny}
use ap_policy.Optimize.Rules.{some_rule, hit, some_rule-append}
use ap_policy.Security.TypeRules.{av_rules, av_key}

-- an access vector rule with a mask of 32 bits, or a rule of no such kind
pub data IsPlain (n : AvtabNode) : Type 0 where
  av : IsAv n.key.specified → n.datum.data_bits < 2 ^ 32 → IsPlain n
  other : ((kind : ℕ) → IsAv kind → bit_and kind n.key.specified ≡ 0) → IsPlain n

abbrev pub AllPlain : List AvtabNode → Type 0
AllPlain [] = Unit {0}
AllPlain (n ∷ ns) = IsPlain n × AllPlain ns

pub AllPlain-middle :
    (front : List AvtabNode) (n : AvtabNode) (back : List AvtabNode)
    → AllPlain (front ++ (n ∷ back))
    → IsPlain n
AllPlain-middle [] n back p = p.0
AllPlain-middle (x ∷ front) n back p = AllPlain-middle front n back p.1

-- a rule that an access vector rule's kind matches is of that kind
same_kind :
    (kind : ℕ) (n : AvtabNode)
    → IsAv kind
    → IsPlain n
    → (bit_and (kinds kind) n.key.specified == 0) ≡ false
    → (n.key.specified ≡ kind) × (n.datum.data_bits < 2 ^ 32)
same_kind kind n (allow e) (av (allow e') f) h = (e' ∙ sym e, f)
same_kind kind n (allow e) (av (auditallow e') f) h = cc (rw (e, e') at h)
same_kind kind n (allow e) (av (auditdeny e') f) h = cc (rw (e, e') at h)
same_kind kind n (auditallow e) (av (allow e') f) h = cc (rw (e, e') at h)
same_kind kind n (auditallow e) (av (auditallow e') f) h = (e' ∙ sym e, f)
same_kind kind n (auditallow e) (av (auditdeny e') f) h = cc (rw (e, e') at h)
same_kind kind n (auditdeny e) (av (allow e') f) h = cc (rw (e, e') at h)
same_kind kind n (auditdeny e) (av (auditallow e') f) h = cc (rw (e, e') at h)
same_kind kind n (auditdeny e) (av (auditdeny e') f) h = (e' ∙ sym e, f)
same_kind kind n (allow e) (other none_of) h = let z = none_of 1 (allow refl) in cc (rw (e) at h, z)
same_kind kind n (auditallow e) (other none_of) h =
    let z = none_of 2 (auditallow refl) in cc (rw (e) at h, z)
same_kind kind n (auditdeny e) (other none_of) h =
    let z = none_of 4 (auditdeny refl) in cc (rw (e) at h, z)

-- the fields that a match compares
pub matches-fields :
    (key : Key) (specified : ℕ) (n : Key)
    → matches key specified n ≡ true
    → (key.source_type ≡ n.source_type)
      × (key.target_type ≡ n.target_type)
      × (key.target_class ≡ n.target_class)
      × ((bit_and specified n.specified == 0) ≡ false)
unfolding matches
matches-fields key specified n h = (ground arith, ground arith, ground arith, ground arith)

matches-av :
    (key n : Key)
    → key.source_type ≡ n.source_type
    → key.target_type ≡ n.target_type
    → key.target_class ≡ n.target_class
    → IsAv n.specified
    → matches key av_rules n ≡ true
unfolding matches
matches-av key n s t c (allow e) = rw (s, t, c, e) (ground arith)
matches-av key n s t c (auditallow e) = rw (s, t, c, e) (ground arith)
matches-av key n s t c (auditdeny e) = rw (s, t, c, e) (ground arith)

-- a covering rule that has the permission is one for its attributes
pub search-hit :
    (kind k : ℕ) (h : Avtab) (key : Key) (st tt : ℕ) (d2 : Datum)
    → IsAv kind
    → key.specified ≡ kind
    → ((i : ℕ) → AllPlain (chain_at i h.htable))
    → search h (covering_key key st tt) ≡ some d2
    → (d2.data_bits < 2 ^ 32)
      × (holds kind k d2 ≡ true → hit kind k h (av_key key.target_class st tt) ≡ true)
unfolding hit covering_key av_key
search-hit kind k h key st tt d2 is_av e plain found =
    let wanted = covering_key key st tt in
    let average = av_key key.target_class st tt in
    let s = search-Split h wanted d2 found in
    let (a, b, c, meets) = matches-fields wanted (kinds wanted.specified) s.node.key s.here in
    let same_hash : hash average h.mask ≡ hash wanted h.mask =
      hash-types average wanted h.mask refl refl refl in
    let chain = chain_at (hash wanted h.mask) h.htable in
    let p =
      AllPlain-middle s.front s.node s.back (subst AllPlain s.whole (plain (hash wanted h.mask))) in
    let (spec, fits) = same_kind kind s.node is_av p (rw (e) at meets) in
    (
      subst (λ (d : Datum). d.data_bits < 2 ^ 32) s.datum fits,
      λ has.
          let m = matches-av average s.node.key a b c (subst IsAv (sym spec) is_av) in
          let has' : holds kind k s.node.datum ≡ true =
            subst (λ (d : Datum). holds kind k d ≡ true) (sym s.datum) has in
          let whole : some_rule kind k average chain
              ≡ some_rule kind k average (s.front ++ (s.node ∷ s.back)) =
            ap (some_rule kind k average) s.whole in
          let parts = some_rule-append kind k average s.front (s.node ∷ s.back) in
          ap (λ i. some_rule kind k average (chain_at i h.htable)) same_hash
          ∙ whole
          ∙ parts
          ∙ rw (m, has', spec) (ground arith),
    )
