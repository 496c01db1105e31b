-- ===== src/Optimize/Slots.antt =====
-- The walk over the rules of a table, `is_avrule_redundant` and `optimize_avtab`, keeps the rules of all types.
use ap_policy.Common.Buckets.{chain_at, chain_at-put_chain, length-put_chain}
use ap_policy.Common.{
  ℕ, ◌+◌, ◌-◌, ◌%◌, ◌^◌, ◌<◌, ◌≡◌, refl, sym, ap, subst, ◌∙◌, Bool, true, false, List, [], ◌∷◌,
  ◌++◌, length, arith, ◌==◌, if◌then◌else◌, Bool-cases, inl, inr, bit_and, bit_or,
}
use mathlib.Core.List.{append_assoc, append-nil}
use ap_policy.Avtab.{Datum, AvtabNode, Avtab, u32_mod, xperms_bits}
use ap_policy.Avtab.Chain.{IsSorted}
use ap_policy.Avtab.Found.{IsSorted-datum, IsSorted-without}
use ap_policy.Avtab.Table.{IsValid}
use ap_policy.Ebitmap.{Ebitmap, get_bit}
use ap_policy.Optimize.{index, with_chain, is_avrule_redundant, types_at, optimize_chain}
use ap_policy.Optimize.Masks.{IsAv, allow, auditallow, auditdeny}
use ap_policy.Optimize.Rules.{rule_test, hit, without-hit}
use ap_policy.Optimize.Table.{IsPlain, av, other, AllPlain, AllPlain-middle}
use ap_policy.Optimize.Covering.{SameRules, SameRules-trans, SameRules-hit, Includes}
use ap_policy.Optimize.Walks.{
  TablePlain, ListAll, AllPlain-replace, with_chain-chains, outer-Reached,
}
use ap_policy.Security.TypeRules.{av_rules}

guard_open : (kind : ℕ) → IsAv kind → (bit_and kind (bit_or av_rules xperms_bits) == 0) ≡ false
guard_open kind (allow e) = rw e refl
guard_open kind (auditallow e) = rw e refl
guard_open kind (auditdeny e) = rw e refl

not_own : (kind : ℕ) → IsAv kind → (bit_and kind kind == 0) ≡ false
not_own kind (allow e) = rw e refl
not_own kind (auditallow e) = rw e refl
not_own kind (auditdeny e) = rw e refl

-- a rule of another kind has no permission
other_test :
    (n : AvtabNode) (kind k : ℕ)
    → ((kind : ℕ) → IsAv kind → bit_and kind n.key.specified ≡ 0)
    → IsAv kind
    → rule_test kind k n ≡ false
other_test n kind k none_of is_av = elim (Bool-cases (n.key.specified == kind)) [
  | inr differs ↦ rw differs refl
  | inl same ↦
      let e : n.key.specified ≡ kind = ground arith in
      let z : bit_and kind kind ≡ 0 = ap (bit_and kind) (sym e) ∙ none_of kind is_av in
      absurd (ground (arith, not_own kind is_av))
]

AllPlain-without :
    (front : List AvtabNode) (n : AvtabNode) (back : List AvtabNode)
    → AllPlain (front ++ (n ∷ back))
    → AllPlain (front ++ back)
AllPlain-without [] n back p = p.1
AllPlain-without (x ∷ front) n back p = (p.0, AllPlain-without front n back p.1)

-- a table of the walk, with the rules of the first one
pub record Kept (attrs : ℕ → Ebitmap) (h0 h : Avtab) : Type 0 where
  pub valid : IsValid h
  pub plain : TablePlain h
  pub same : SameRules attrs h0 h
  pub size : length h.htable ≡ length h0.htable

module _ (attrs : ℕ → Ebitmap) (small : (v i : ℕ) → get_bit (attrs v) i ≡ true → i + 1 < 2 ^ 16)
    (type_map : List (List ℕ))
    (includes : (a : ℕ) → ListAll (Includes attrs a) (types_at type_map a)) (slot : ℕ) where
  -- the table in which the entry has the datum that is left
  record Checked (tab : Datum → Avtab) (x : AvtabNode) (r : Bool × Datum) : Type 0 where
    plain : IsPlain (record x { datum = r.1 })
    same : SameRules attrs (tab x.datum) (tab r.1)
    nothing :
        r.0 ≡ true
        → (kind k : ℕ) → IsAv kind
        → k < 32
        → rule_test kind k (record x { datum = r.1 }) ≡ false

  module _ (h : Avtab) (room : slot < length h.htable) (front : List AvtabNode) (x : AvtabNode)
      (back : List AvtabNode) where
    abbrev tab : Datum → Avtab
    tab d = with_chain h slot (front ++ (record x { datum = d } ∷ back))

    av-Checked :
        IsAv x.key.specified
        → x.datum.data_bits < 2 ^ 32
        → TablePlain (tab x.datum)
        → Checked tab x (is_avrule_redundant tab type_map x true)
    unfolding is_avrule_redundant
    av-Checked is_av fits p =
        let a =
          outer-Reached attrs small h slot room front x back is_av _ _ x.datum
            (includes (index x.key.source_type)) (includes (index x.key.target_type)) p fits in
        rw (guard_open x.key.specified is_av) (record {
          plain = av is_av a.fits;
          same = a.same;
          nothing = λ h kind k _ lt.
              let gone = a.nothing h k lt in
              elim (Bool-cases (x.key.specified == kind)) [
                | inr differs ↦ rw differs refl
                | inl same ↦ let e : x.key.specified ≡ kind = ground arith in ground arith
              ];
        })

    other-Checked :
        ((kind : ℕ) → IsAv kind → bit_and kind x.key.specified ≡ 0)
        → (r : Bool × Datum) → Checked tab x r
    other-Checked none_of r = record {
      plain = other none_of;
      same = SameRules-hit attrs (tab x.datum) (tab r.1) (λ kind k key is_av lt.
          sym (
            without-hit kind k h slot room front x back key r.1
              (other_test (record x { datum = r.1 }) kind k none_of is_av))
          ∙ without-hit kind k h slot room front x back key x.datum
              (other_test x kind k none_of is_av));
      nothing = λ h kind k is_av lt. other_test (record x { datum = r.1 }) kind k none_of is_av;
    }

    redundant-Checked :
        IsPlain x
        → TablePlain (tab x.datum)
        → Checked tab x (is_avrule_redundant tab type_map x true)
    redundant-Checked (av is_av fits) p = av-Checked is_av fits p
    redundant-Checked (other none_of) p = other-Checked none_of _

  module _ (h0 h : Avtab) (room : slot < length h.htable) (front : List AvtabNode) (x : AvtabNode)
      (back : List AvtabNode) (k0 : Kept attrs h0 (with_chain h slot (front ++ (x ∷ back)))) where
    size_after : (c : List AvtabNode) → length (with_chain h slot c).htable ≡ length h0.htable
    unfolding with_chain
    size_after c =
        length-put_chain slot c h.htable
        ∙ sym (length-put_chain slot (front ++ (x ∷ back)) h.htable)
        ∙ k0.size

    room_after :
        (c : List AvtabNode) → (with_chain h slot c).mask < length (with_chain h slot c).htable
    unfolding with_chain
    room_after c = omega (
      arith,
      k0.valid.room,
      length-put_chain slot c h.htable,
      length-put_chain slot (front ++ (x ∷ back)) h.htable,
    )

    changed-Kept :
        (r : Bool × Datum)
        → Checked (tab h room front x back) x r
        → Kept attrs h0 (tab h room front x back r.1)
    changed-Kept r c = record {
      valid = record {
        room = room_after _;
        sorted =
            with_chain-chains IsSorted h slot _ _ room (IsSorted-datum front x r.1 back)
              k0.valid.sorted;
      };
      plain =
          with_chain-chains AllPlain h slot _ _ room
            (AllPlain-replace front _ _ back (λ q. c.plain)) k0.plain;
      same = SameRules-trans attrs _ _ _ k0.same c.same;
      size = size_after _;
    }

    removed-Kept :
        (r : Bool × Datum)
        → r.0 ≡ true
        → Checked (tab h room front x back) x r
        → Kept attrs h0 (with_chain h slot (front ++ back))
    removed-Kept r gone c = record {
      valid = record {
        room = room_after _;
        sorted =
            with_chain-chains IsSorted h slot _ _ room (IsSorted-without front x back)
              k0.valid.sorted;
      };
      plain = with_chain-chains AllPlain h slot _ _ room (AllPlain-without front x back) k0.plain;
      same = SameRules-trans attrs _ _ _ k0.same (
          SameRules-trans attrs _ _ _ c.same (
            SameRules-hit attrs (tab h room front x back r.1) (with_chain h slot (front ++ back))
              (λ kind k key is_av lt.
                without-hit kind k h slot room front x back key r.1
                  (c.nothing gone kind k is_av lt))));
      size = size_after _;
    }

  -- the number of elements has no part in it
  nel-Kept : (h0 h : Avtab) (n : ℕ) → Kept attrs h0 h → Kept attrs h0 (record h { nel = n })
  unfolding hit
  nel-Kept h0 h n k = record {
    valid = record { room = k.valid.room; sorted = k.valid.sorted };
    plain = k.plain;
    same =
        SameRules-trans attrs _ _ _ k.same (
          SameRules-hit attrs h (record h { nel = n }) (λ kind k key is_av lt. unfold hit in refl));
    size = k.size;
  }

  pub optimize_chain-Kept :
      (h0 h : Avtab) (front back : List AvtabNode)
      → slot < length h.htable
      → Kept attrs h0 (with_chain h slot (front ++ back))
      → Kept attrs h0 (optimize_chain type_map slot h front back)
  unfolding optimize_chain with_chain
  optimize_chain-Kept h0 h front [] room k =
      subst (λ (c : List AvtabNode). Kept attrs h0 (with_chain h slot c)) (append-nil front) k
  optimize_chain-Kept h0 h front (x ∷ back) room k =
      let table = tab h room front x back in
      let r = is_avrule_redundant table type_map x true in
      let p : IsPlain x = plain_middle h front x back room k.plain in
      let c : Checked table x r = redundant-Checked h room front x back p k.plain in
      elim (Bool-cases r.0) [
        | inl gone ↦
            rw (optimize_chain, gone)
              (optimize_chain-Kept h0 (record h { nel = (h.nel + u32_mod - 1) % u32_mod }) front
                back room
                (nel-Kept h0 (with_chain h slot (front ++ back)) ((h.nel + u32_mod - 1) % u32_mod)
                  (removed-Kept h0 h room front x back k r gone c)))
        | inr stays ↦
            rw (optimize_chain, stays)
              (optimize_chain-Kept h0 h (front ++ (record x { datum = r.1 } ∷ [])) back room (
                subst (λ (c : List AvtabNode). Kept attrs h0 (with_chain h slot c))
                  (sym (append_assoc front (record x { datum = r.1 } ∷ []) back))
                  (changed-Kept h0 h room front x back k r c)))
      ]
    where
      plain_middle :
          (h : Avtab) (front : List AvtabNode) (x : AvtabNode) (back : List AvtabNode)
          → slot < length h.htable
          → TablePlain (with_chain h slot (front ++ (x ∷ back)))
          → IsPlain x
      plain_middle h front x back room p =
          let e = chain_at-put_chain slot slot (front ++ (x ∷ back)) h.htable room in
          let self : (slot == slot) ≡ true = ground arith in
          AllPlain-middle front x back (
            subst AllPlain
              (e ∙ ap (λ b. if b then front ++ (x ∷ back) else chain_at slot h.htable) self)
              (p slot))
