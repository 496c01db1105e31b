-- ===== src/Optimize/Covering.antt =====
-- A rule that another one covers may lose what the other one has: all types keep their rules.
use ap_policy.Common.Buckets.{chain_at}
use ap_policy.Common.{
  ℕ, suc, ◌+◌, ◌%◌, ◌^◌, ◌<◌, ◌≡◌, ◌↔◌, inl, inr, refl, sym, subst, ◌∙◌, Bool, true, false, some,
  List, ◌∷◌, ◌++◌, length, arith, ◌==◌, ◌&&◌,
}
use ap_policy.Avtab.{Key, Datum, AvtabNode, Avtab, search}
use ap_policy.Ebitmap.{Ebitmap, get_bit}
use ap_policy.Optimize.{index, covering_key, with_chain}
use ap_policy.Optimize.Masks.{holds, IsAv, Processed}
use ap_policy.Optimize.Rules.{rule_test, hit, fewer-hit, kept-hit}
use ap_policy.Optimize.Table.{AllPlain, search-hit, matches-fields}
use ap_policy.Security.TypeRules.{av_rules, av_key}

-- `attrs` is the attribute set of a type's value
module _ (attrs : ℕ → Ebitmap) where
  -- a rule of the kind for attributes of the two types has the permission
  abbrev pub Covered : ℕ → ℕ → Avtab → ℕ → ℕ → ℕ → Type 0
  Covered kind k h tclass v w =
      (i : ℕ) × (j : ℕ) × (get_bit (attrs (suc v)) i ≡ true)
      × (get_bit (attrs (suc w)) j ≡ true)
      × (hit kind k h (av_key tclass i j) ≡ true)

  pub record SameRules (h h' : Avtab) : Type 0 where
    pub covered :
        (kind k tclass v w : ℕ)
        → IsAv kind
        → k < 32
        → Covered kind k h tclass v w ↔ Covered kind k h' tclass v w

  pub SameRules-refl : (h : Avtab) → SameRules h h
  SameRules-refl h = record { covered = λ kind k tclass v w av lt. (λ c. c, λ c. c) }

  pub SameRules-trans : (a b c : Avtab) → SameRules a b → SameRules b c → SameRules a c
  SameRules-trans a b c p q = record {
    covered = λ kind k tclass v w av lt.
        let x = p.covered kind k tclass v w av lt in
        let y = q.covered kind k tclass v w av lt in (λ r. y.0 (x.0 r), λ r. x.1 (y.1 r));
  }

  -- the same permissions for each key
  pub SameRules-hit :
      (h h' : Avtab)
      → ((kind k : ℕ) (key : Key) → IsAv kind → k < 32 → hit kind k h' key ≡ hit kind k h key)
      → SameRules h h'
  SameRules-hit h h' e = record {
    covered = λ kind k tclass v w av lt. (
      λ c. (c.0, c.1, c.2, c.3, e kind k (av_key tclass c.0 c.1) av lt ∙ c.4),
      λ c. (c.0, c.1, c.2, c.3, sym (e kind k (av_key tclass c.0 c.1) av lt) ∙ c.4),
    );
  }

  -- every type with the one attribute has the other
  abbrev pub Includes : ℕ → ℕ → Type 0
  Includes a st = (v : ℕ) → get_bit (attrs (suc v)) a ≡ true → get_bit (attrs (suc v)) st ≡ true

  module _ (small : (v i : ℕ) → get_bit (attrs v) i ≡ true → i + 1 < 2 ^ 16) where
    key_index :
        (v i type : ℕ) → get_bit (attrs (suc v)) i ≡ true → (i + 1) % 2 ^ 16 ≡ type → index type ≡ i
    key_index v i type b e =
        let lt = small (suc v) i b in let t : type ≡ suc i = omega arith in rw t refl

    module _ (h : Avtab) (slot : ℕ) (room : slot < length h.htable) (front : List AvtabNode)
        (x : AvtabNode) (back : List AvtabNode) where
      abbrev pub tab : Datum → Avtab
      tab d = with_chain h slot (front ++ (record x { datum = d } ∷ back))

      module _ (st tt : ℕ) (sources : Includes (index x.key.source_type) st)
          (targets : Includes (index x.key.target_type) tt)
          (apart : (index x.key.source_type == st && index x.key.target_type == tt) ≡ false)
          (d d2 : Datum) (r : Bool × Datum) (is_av : IsAv x.key.specified)
          (plain : (i : ℕ) → AllPlain (chain_at i (tab d).htable))
          (found : search (tab d) (covering_key x.key st tt) ≡ some d2)
          (proc : Processed x.key.specified d d2 r) where
        covering_rule :
            (kind k tclass v w i j : ℕ)
            → IsAv kind
            → k < 32
            → get_bit (attrs (suc v)) i ≡ true
            → get_bit (attrs (suc w)) j ≡ true
            → hit kind k (tab d) (av_key tclass i j) ≡ true
            → Covered kind k (tab r.1) tclass v w
        unfolding av_key
        covering_rule kind k tclass v w i j av lt bi bj h1 =
            elim (kept-hit kind k h slot room front x back (av_key tclass i j) d r.1 h1) [
              | inl still ↦ (i, j, bi, bj, still)
              | inr (m, was, gone) ↦
                  let (a, b, c, _) = matches-fields (av_key tclass i j) av_rules x.key m in
                  let si = key_index v i x.key.source_type bi a in
                  let tj = key_index w j x.key.target_type bj b in
                  let bs =
                    sources v (subst (λ (n : ℕ). get_bit (attrs (suc v)) n ≡ true) (sym si) bi) in
                  let bt =
                    targets w (subst (λ (n : ℕ). get_bit (attrs (suc w)) n ≡ true) (sym tj) bj) in
                  let spec : x.key.specified ≡ kind = ground arith in
                  let left = proc.left k lt in
                  let has2 : holds kind k d2 ≡ true = ground arith in
                  let other =
                    (search-hit kind k (tab d) x.key st tt d2 av spec plain found).1 has2 in
                  let other' : hit kind k (tab d) (av_key tclass st tt) ≡ true =
                    subst (λ (cl : ℕ). hit kind k (tab d) (av_key cl st tt) ≡ true) (sym c) other in
                  elim (kept-hit kind k h slot room front x back (av_key tclass st tt) d r.1
                    other') [
                      | inl still ↦ (st, tt, bs, bt, still)
                      | inr (m', _, _) ↦
                          let (a', b', _, _) =
                            matches-fields (av_key tclass st tt) av_rules x.key m' in
                          let ss = key_index v st x.key.source_type bs a' in
                          let ts = key_index w tt x.key.target_type bt b' in absurd (ground arith)
                    ]
            ]

        -- one comparison keeps the rules of all types
        pub process-SameRules : SameRules (tab d) (tab r.1)
        process-SameRules = record {
          covered = λ kind k tclass v w av lt. (
            λ c. covering_rule kind k tclass v w c.0 c.1 av lt c.2 c.3 c.4,
            λ c. (
              c.0,
              c.1,
              c.2,
              c.3,
              fewer-hit kind k h slot room front x back (av_key tclass c.0 c.1) d r.1
                  (λ t. fewer kind k lt t) c.4,
            ),
          );
        }
          where
            fewer :
                (kind k : ℕ)
                → k < 32
                → rule_test kind k (record x { datum = r.1 }) ≡ true
                → rule_test kind k (record x { datum = d }) ≡ true
            fewer kind k lt t =
                let left = proc.left k lt in
                let spec : x.key.specified ≡ kind = ground arith in ground arith
