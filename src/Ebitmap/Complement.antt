-- ===== src/Ebitmap/Complement.antt =====
-- `ebitmap_not` and `ebitmap_andnot`: the complement below a bound, and when the loop ends.
use ap_policy.Common.{
  ℕ, zero, suc, ◌+◌, ◌-◌, ◌*◌, ◌%◌, ◌^◌, ◌≤◌, ◌<◌, ◌≡◌, refl, List, [], ◌∷◌, arith, ◌&&◌, true, ltb,
  leb, ◌==◌, inl, inr, Bool-cases, some, none, not as not_bool,
}
use ap_policy.Common.Bits.{bit_and-lt}
use ap_policy.Ebitmap.{
  Node, Ebitmap, ebitmap, mapsize, map_mod, u32_mod, get_nodes, get_bit, has_bit, push_nonzero,
  not_round, cut_map, not_nodes, not, and, andnot, last_highbit,
}
use ap_policy.Ebitmap.Intersection.{and-bits}
use ap_policy.Ebitmap.Maps.{has_bit-complement, has_bit-low, has_bit-ones}
use ap_policy.Ebitmap.Push.{
  push_nonzero-bits, push_nonzero-Chain, push_nonzero-end_of, built-IsValid,
}
use ap_policy.Ebitmap.Shape.{Chain, end_of, IsValid, get_bit-nodes}

-- what a round takes from the node list
record Round (cur : ℕ) (ns : List Node) (r : ℕ × List Node) : Type 0 where
  small : r.0 < map_mod
  chain : Chain (cur + mapsize) r.1
  here : (k : ℕ) → k < mapsize → has_bit r.0 k ≡ not_bool (get_nodes ns (cur + k))
  later : (i : ℕ) → cur + mapsize ≤ i → get_nodes r.1 i ≡ get_nodes ns i

not_round-Round :
    (cur : ℕ) (ns : List Node) → cur % mapsize ≡ 0 → Chain cur ns → Round cur ns (not_round cur ns)
unfolding not_round get_nodes
not_round-Round cur [] a c = record {
  small = omega arith;
  chain = tt;
  here = λ k h. has_bit-ones k h;
  later = λ i h. refl;
}
not_round-Round cur (n ∷ rest) a c = elim (Bool-cases (n.startbit == cur)) [
  | inl e ↦
      let at : n.startbit ≡ cur = ground arith in
      rw e (record {
        small = omega arith;
        chain = rw at at c.4;
        here = λ k h.
            let off : cur + k - n.startbit ≡ k = omega arith in
            ground (arith, has_bit-complement n.map k c.3 h);
        later = λ i h. ground arith;
      })
  | inr ne ↦ rw ne (record {
    small = omega arith;
    chain = (ground arith, c.1, c.2, c.3, c.4);
    here = λ k h. ground (arith, has_bit-ones k h);
    later = λ i h. refl;
  })
]

cut_map-bits :
    (cur maxbit m k : ℕ)
    → cur < maxbit
    → k < mapsize
    → has_bit (cut_map cur maxbit m) k ≡ (has_bit m k && ltb (cur + k) maxbit)
cut_map-bits cur maxbit m k h lt = ground (arith, has_bit-low m (maxbit - cur) k)

cut_map-lt : (cur maxbit m : ℕ) → m < map_mod → cut_map cur maxbit m < map_mod
cut_map-lt cur maxbit m h = ground (arith, bit_and-lt mapsize m (2 ^ (maxbit - cur) - 1) h)

-- the complement of `ns` from `cur` up to `maxbit`
record Inverts (cur maxbit : ℕ) (ns made : List Node) : Type 0 where
  chain : Chain cur made
  end : end_of cur made ≤ u32_mod - mapsize
  bits : (i : ℕ) → get_nodes made i ≡ (leb cur i && ltb i maxbit && not_bool (get_nodes ns i))

-- one round inverts its window, and the rest of the loop what lies behind
invert-Round :
    (cur maxbit i : ℕ) (ns left rest : List Node) (m : ℕ)
    → ltb cur maxbit ≡ true
    → Round cur ns (m, left)
    → Inverts (cur + mapsize) maxbit left rest
    → get_nodes (push_nonzero cur (cut_map cur maxbit m) rest) i
      ≡ (leb cur i && ltb i maxbit && not_bool (get_nodes ns i))
invert-Round cur maxbit i ns left rest m more round inv =
    rw (push_nonzero-bits cur (cut_map cur maxbit m) rest i inv.chain)
      (elim (Bool-cases (leb cur i)) [
        | inr before ↦ unfold get_nodes in rw before refl
        | inl from ↦ elim (Bool-cases (ltb i (cur + mapsize))) [
          | inr after ↦
              unfold get_nodes in rw (from, after) (ground (arith, inv.bits i, round.later i))
          | inl inside ↦
              let back : cur + (i - cur) ≡ i = ground arith in
              let cut = cut_map-bits cur maxbit m (i - cur) (ground arith) (ground arith) in
              let here = rw back at (round.here (i - cur) (ground arith)) in
              unfold get_nodes in rw (from, inside) (ground (arith, cut, here))
        ]
      ])

module _ (maxbit : ℕ) (fits : maxbit ≤ u32_mod - mapsize) where
  not_nodes_step :
      (fuel cur : ℕ) (ns rest : List Node) (next : ℕ)
      → ltb cur maxbit ≡ true
      → (cur + mapsize) % u32_mod ≡ next
      → not_nodes fuel next maxbit (not_round cur ns).1 ≡ some rest
      → not_nodes (suc fuel) cur maxbit ns
        ≡ some (push_nonzero cur (cut_map cur maxbit (not_round cur ns).0) rest)
  unfolding not_nodes
  not_nodes_step fuel cur ns rest next more step run = rw (more, not_nodes, step, run) refl

  not_nodes-Inverts :
      (fuel cur : ℕ) (ns : List Node)
      → cur % mapsize ≡ 0
      → cur < maxbit + mapsize
      → maxbit + mapsize ≤ cur + mapsize * fuel
      → Chain cur ns
      → (made : List Node) × (not_nodes fuel cur maxbit ns ≡ some made) × Inverts cur maxbit ns made
  unfolding not_nodes get_nodes
  not_nodes-Inverts zero cur ns a h enough c = absurd (omega arith)
  not_nodes-Inverts (suc fuel) cur ns a h enough c = elim (Bool-cases (ltb cur maxbit)) [
    | inr done ↦ (
      [],
      rw (done, not_nodes) refl,
      record { chain = tt; end = ground arith; bits = λ i. ground arith },
    )
    | inl more ↦
        let round = not_round-Round cur ns a c in
        let (m, left) = not_round cur ns in
        let next : (cur + mapsize) % u32_mod ≡ cur + mapsize = ground arith in
        let (rest, run, inv) =
          not_nodes-Inverts fuel (cur + mapsize) left (omega arith) (ground arith) (omega arith)
            round.chain in
        (
          push_nonzero cur (cut_map cur maxbit m) rest,
          not_nodes_step fuel cur ns rest (cur + mapsize) more next run,
          record {
            chain =
                push_nonzero-Chain cur (cut_map cur maxbit m) rest cur (omega arith) a
                  (cut_map-lt cur maxbit m round.small) inv.chain;
            end = omega (
              arith,
              inv.end,
              push_nonzero-end_of cur (cut_map cur maxbit m) rest cur (omega arith),
            );
            bits = λ i. invert-Round cur maxbit i ns left rest m more round inv;
          },
        )
  ]

-- With a bound of at most 2 ^ 32 - 64 and fuel for a round per 64 bits and one more, `ebitmap_not` of
-- a well-formed bitmap returns a well-formed one, and a bit is set in it exactly when it lies below
-- the bound and is clear in the argument.
pub not-bits :
    (fuel : ℕ) (e : Ebitmap) (maxbit : ℕ)
    → IsValid e
    → maxbit ≤ u32_mod - mapsize
    → maxbit + mapsize ≤ mapsize * fuel
    → (r : Ebitmap) × (not fuel e maxbit ≡ some r)
      × IsValid r
      × ((i : ℕ) → get_bit r i ≡ (ltb i maxbit && not_bool (get_bit e i)))
unfolding not
not-bits fuel e maxbit v fits enough =
    let (made, run, inv) =
      not_nodes-Inverts maxbit fits fuel 0 e.nodes (omega arith) (omega arith) (omega arith)
        v.chain in
    let valid = built-IsValid made inv.chain (omega (arith, inv.end)) in
    (
      ebitmap made (last_highbit 0 made),
      rw (run, not) refl,
      valid,
      λ i. rw (get_bit-nodes valid i, get_bit-nodes v i) (ground (arith, inv.bits i)),
    )

not_nodes-none :
    (fuel cur maxbit : ℕ) (ns : List Node)
    → u32_mod - mapsize < maxbit
    → cur % mapsize ≡ 0
    → cur < u32_mod
    → not_nodes fuel cur maxbit ns ≡ none
unfolding not_nodes
not_nodes-none zero cur maxbit ns h a b = refl
not_nodes-none (suc fuel) cur maxbit ns h a b =
    let rest =
      not_nodes-none fuel ((cur + mapsize) % u32_mod) maxbit (not_round cur ns).1 h (omega arith)
        (omega arith) in
    let more : ltb cur maxbit ≡ true = ground arith in rw (more, not_nodes, rest) refl

-- With a bound above 2 ^ 32 - 64 the loop of `ebitmap_not` never ends, whatever the bitmap: its 32-bit
-- counter wraps to zero, and no fuel is enough.
pub not-diverges :
    (e : Ebitmap) (maxbit : ℕ) → u32_mod - mapsize < maxbit → (fuel : ℕ) → not fuel e maxbit ≡ none
unfolding not
not-diverges e maxbit h fuel =
    rw (not_nodes-none fuel 0 maxbit e.nodes h (omega arith) (omega arith), not) refl

-- With a bound of at most 2 ^ 32 - 64 and fuel for it, `ebitmap_andnot` of two well-formed bitmaps
-- returns a well-formed one, and a bit is set in it exactly when it lies below the bound, is set in
-- the first and is clear in the second.
pub andnot-bits :
    (fuel : ℕ) (e1 e2 : Ebitmap) (maxbit : ℕ)
    → IsValid e1
    → IsValid e2
    → maxbit ≤ u32_mod - mapsize
    → maxbit + mapsize ≤ mapsize * fuel
    → (r : Ebitmap) × (andnot fuel e1 e2 maxbit ≡ some r)
      × IsValid r
      × ((i : ℕ) → get_bit r i ≡ (get_bit e1 i && (ltb i maxbit && not_bool (get_bit e2 i))))
unfolding andnot
andnot-bits fuel e1 e2 maxbit v1 v2 fits enough =
    let (e3, run, v3, bits3) = not-bits fuel e2 maxbit v2 fits enough in
    let (valid, bits) = and-bits e1 e3 v1 v3 in
    (and e1 e3, rw (run, andnot) refl, valid, λ i. rw (bits i, bits3 i) refl)
