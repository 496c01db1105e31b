-- ===== src/Optimize/Walks.antt =====
-- The walks of `is_avrule_redundant` keep the rules of all types.
use ap_policy.Common.Buckets.{chain_at, chain_at-put_chain}
use ap_policy.Common.{
  ℕ, ◌+◌, ◌^◌, ◌<◌, ◌≡◌, refl, sym, ap, subst, ◌∙◌, Bool, true, false, some, List, [], ◌∷◌, ◌++◌,
  length, ◌==◌, if◌then◌else◌, ◌&&◌, Bool-cases, Option-cases, inl, inr,
}
use ap_policy.Avtab.{Datum, AvtabNode, Avtab, search}
use ap_policy.Ebitmap.{Ebitmap, get_bit}
use ap_policy.Optimize.{
  index, covering_key, with_chain, process_avtab_datum, unless_covered, inner_targets,
  outer_sources,
}
use ap_policy.Optimize.Masks.{holds, IsAv, process_avtab_datum-Processed}
use ap_policy.Optimize.Table.{IsPlain, av, AllPlain, search-hit}
use ap_policy.Optimize.Covering.{
  SameRules, SameRules-refl, SameRules-trans, Includes, process-SameRules,
}

abbrev pub TablePlain : Avtab → Type 0
TablePlain h = (i : ℕ) → AllPlain (chain_at i h.htable)

pub AllPlain-replace :
    (front : List AvtabNode) (n n' : AvtabNode) (back : List AvtabNode)
    → (IsPlain n → IsPlain n')
    → AllPlain (front ++ (n ∷ back))
    → AllPlain (front ++ (n' ∷ back))
AllPlain-replace [] n n' back f p = (f p.0, p.1)
AllPlain-replace (x ∷ front) n n' back f p = (p.0, AllPlain-replace front n n' back f p.1)

-- a condition on the chains of a table in which one chain changes
pub with_chain-chains :
    (P : List AvtabNode → Type 0) (h : Avtab) (slot : ℕ) (a b : List AvtabNode)
    → slot < length h.htable
    → (P a → P b)
    → ((i : ℕ) → P (chain_at i (with_chain h slot a).htable))
    → (i : ℕ) → P (chain_at i (with_chain h slot b).htable)
unfolding with_chain
with_chain-chains P h slot a b room f all i =
    let at = λ (c : List AvtabNode) (b : Bool) (e : (i == slot) ≡ b).
      chain_at-put_chain slot i c h.htable room
      ∙ ap (λ b. if b then c else chain_at i h.htable) e in
    elim (Bool-cases (i == slot)) [
      | inl here ↦ subst P (sym (at b true here)) (f (subst P (at a true here) (all i)))
      | inr elsewhere ↦
          subst P (sym (at b false elsewhere)) (subst P (at a false elsewhere) (all i))
    ]

abbrev pub ListAll : (ℕ → Type 0) → List ℕ → Type 0
ListAll P [] = Unit {0}
ListAll P (n ∷ ns) = P n × ListAll P ns

module _ (attrs : ℕ → Ebitmap) (small : (v i : ℕ) → get_bit (attrs v) i ≡ true → i + 1 < 2 ^ 16)
    (h : Avtab) (slot : ℕ) (room : slot < length h.htable) (front : List AvtabNode) (x : AvtabNode)
    (back : List AvtabNode) where
  abbrev tab : Datum → Avtab
  tab d = with_chain h slot (front ++ (record x { datum = d } ∷ back))

  -- what the walks have done so far
  pub record Reached (d : Datum) (r : Bool × Datum) : Type 0 where
    pub plain : TablePlain (tab r.1)
    pub fits : r.1.data_bits < 2 ^ 32
    pub same : SameRules attrs (tab d) (tab r.1)
    pub nothing : r.0 ≡ true → (k : ℕ) → k < 32 → holds x.key.specified k r.1 ≡ false

  start-Reached : (d : Datum) → TablePlain (tab d) → d.data_bits < 2 ^ 32 → Reached d (false, d)
  start-Reached d p f = record {
    plain = p;
    fits = f;
    same = SameRules-refl attrs (tab d);
    nothing = λ h. cc;
  }

  unless-Reached :
      (d : Datum) (r : Bool × Datum) (rest : Datum → Bool × Datum)
      → Reached d r
      → ((d' : Datum) → TablePlain (tab d') → d'.data_bits < 2 ^ 32 → Reached d' (rest d'))
      → Reached d (unless_covered r rest)
  unless-Reached d (true, d') rest a go = a
  unless-Reached d (false, d') rest a go =
      let b = go d' a.plain a.fits in
      record {
        plain = b.plain;
        fits = b.fits;
        same = SameRules-trans attrs _ _ _ a.same b.same;
        nothing = b.nothing;
      }

  module _ (is_av : IsAv x.key.specified) where
    process-Reached :
        (st t : ℕ) (d d2 : Datum)
        → Includes attrs (index x.key.source_type) st
        → Includes attrs (index x.key.target_type) t
        → (index x.key.source_type == st && index x.key.target_type == t) ≡ false
        → TablePlain (tab d)
        → d.data_bits < 2 ^ 32
        → search (tab d) (covering_key x.key st t) ≡ some d2
        → Reached d (process_avtab_datum x.key.specified d d2)
    process-Reached st t d d2 ss tt' apart p f found =
        let fits2 = (search-hit x.key.specified 0 (tab d) x.key st t d2 is_av refl p found).0 in
        let proc = process_avtab_datum-Processed x.key.specified d d2 is_av f fits2 in
        record {
          plain =
              with_chain-chains AllPlain h slot _ _ room
                (AllPlain-replace front _ _ back (λ q. av is_av proc.fits)) p;
          fits = proc.fits;
          same =
              process-SameRules attrs small h slot room front x back st t ss tt' apart d d2 _ is_av
                p found proc;
          nothing = proc.nothing;
        }

    inner-Reached :
        (st : ℕ) (ts : List ℕ) (d : Datum)
        → Includes attrs (index x.key.source_type) st
        → ListAll (Includes attrs (index x.key.target_type)) ts
        → TablePlain (tab d)
        → d.data_bits < 2 ^ 32
        → Reached d (inner_targets tab x.key true st ts d)
    unfolding inner_targets
    inner-Reached st [] d ss all p f = start-Reached d p f
    inner-Reached st (t ∷ ts) d ss all p f =
        elim (Bool-cases (index x.key.source_type == st && index x.key.target_type == t)) [
          | inl self ↦ rw (inner_targets, self) (inner-Reached st ts d ss all.1 p f)
          | inr apart ↦ elim (Option-cases (search (tab d) (covering_key x.key st t))) [
            | inl missing ↦ rw (inner_targets, apart, missing) (inner-Reached st ts d ss all.1 p f)
            | inr (d2, found) ↦
                rw (inner_targets, apart, found)
                  (unless-Reached d (process_avtab_datum x.key.specified d d2) _
                    (process-Reached st t d d2 ss all.0 apart p f found)
                    (λ d' p' f'. inner-Reached st ts d' ss all.1 p' f'))
          ]
        ]

    pub outer-Reached :
        (ss ts : List ℕ) (d : Datum)
        → ListAll (Includes attrs (index x.key.source_type)) ss
        → ListAll (Includes attrs (index x.key.target_type)) ts
        → TablePlain (tab d)
        → d.data_bits < 2 ^ 32
        → Reached d (outer_sources tab x.key true ss ts d)
    unfolding outer_sources
    outer-Reached [] ts d a b p f = start-Reached d p f
    outer-Reached (s ∷ ss) ts d a b p f =
        unless-Reached d (inner_targets tab x.key true s ts d) _ (inner-Reached s ts d a.0 b p f)
          (λ d' p' f'. outer-Reached ss ts d' a.1 b p' f')
