-- ===== src/Ebitmap/Range/Laws.antt =====
-- What `ebitmap_init_range` builds.
use ap_policy.Common.{
  ℕ, zero, suc, ◌+◌, ◌-◌, ◌*◌, ◌/◌, ◌%◌, ◌^◌, ◌≤◌, ◌<◌, ◌≡◌, refl, sym, ◌∙◌, true, false, some,
  List, [], ◌∷◌, ltb, leb, ◌==◌, ◌&&◌, max, arith, inl, inr, Bool-cases,
}
use ap_policy.Common.Bits.Masks.{pow-lt, ones_left, ones_right, test_bit-low, test_bit-field}
use ap_policy.Common.Results.{ok, err, einval, eoverflow}
use ap_policy.Ebitmap.{
  Node, node, Ebitmap, ebitmap, mapsize, map_mod, u32_mod, get_nodes, get_bit, has_bit,
}
use ap_policy.Ebitmap.Maps.{has_bit-test_bit, has_bit-complement, has_bit-ones, has_bit-zero}
use ap_policy.Ebitmap.Range.{range_map, range_nodes, init_range}
use ap_policy.Ebitmap.Shape.{Chain, Chain-le, end_of_start, end_of, IsValid, get_bit-nodes}
use ap_policy.Ebitmap.Update.{start_of}

has_bit-low_mask : (n k : ℕ) → has_bit (2 ^ n - 1) k ≡ ltb k n
has_bit-low_mask n k = has_bit-test_bit (2 ^ n - 1) k ∙ test_bit-low n k

-- `~0 << s` and `~0 >> s`
has_bit-ones_left :
    (s k : ℕ) → s < mapsize → k < mapsize → has_bit ((map_mod - 1) * 2 ^ s % map_mod) k ≡ leb s k
has_bit-ones_left s k h lt = rw (ones_left s h) (
    ground (
      arith,
      has_bit-complement (2 ^ s - 1) k (omega (arith, pow-lt s h)) lt,
      has_bit-low_mask s k,
    ))

has_bit-ones_right :
    (s k : ℕ) → s < mapsize → has_bit ((map_mod - 1) / 2 ^ s) k ≡ ltb k (mapsize - s)
has_bit-ones_right s k h = rw (ones_right s h) (has_bit-low_mask (mapsize - s) k)

module _ (minbit maxbit : ℕ) (ordered : minbit ≤ maxbit) where
  range_map-bits :
      (startbit k : ℕ)
      → startbit % mapsize ≡ 0
      → start_of minbit ≤ startbit
      → startbit ≤ start_of maxbit
      → k < mapsize
      → has_bit (range_map startbit minbit maxbit) k
        ≡ (leb minbit (startbit + k) && leb (startbit + k) maxbit)
  unfolding range_map
  range_map-bits startbit k a lo hi lt = elim (Bool-cases (startbit == start_of minbit)) [
    | inl first ↦ elim (Bool-cases (startbit == start_of maxbit)) [
      | inl last ↦
          let c = maxbit - minbit + 1 in
          let s = minbit - startbit in
          let ones = ones_right (mapsize - c) (ground arith) in
          let back : mapsize - (mapsize - c) ≡ c = ground arith in
          let field =
            has_bit-test_bit ((2 ^ c - 1) * 2 ^ s % map_mod) k
            ∙ test_bit-field c s mapsize k (ground arith) in
          rw (first, last, ones, back) (field ∙ ground arith)
      | inr inner ↦
          rw (first, inner)
            (has_bit-ones_left (minbit - startbit) k (ground arith) lt ∙ ground arith)
    ]
    | inr later ↦ elim (Bool-cases (startbit == start_of maxbit)) [
      | inl last ↦
          rw (later, last)
            (has_bit-ones_right (mapsize - (maxbit - startbit + 1)) k (ground arith) ∙ ground arith)
      | inr inner ↦ rw (later, inner) (has_bit-ones k lt ∙ ground arith)
    ]
  ]

  range_map-lt : (startbit : ℕ) → range_map startbit minbit maxbit < map_mod
  unfolding range_map
  range_map-lt startbit = ground arith

  range_map-pos :
      (startbit : ℕ)
      → startbit % mapsize ≡ 0
      → start_of minbit ≤ startbit
      → startbit ≤ start_of maxbit
      → 0 < range_map startbit minbit maxbit
  range_map-pos startbit a lo hi =
      let k = max minbit startbit - startbit in
      let bit = range_map-bits startbit k a lo hi (omega arith) in
      elim (Bool-cases (range_map startbit minbit maxbit == 0)) [
        | inr nz ↦ ground arith
        | inl z ↦
            let empty : range_map startbit minbit maxbit ≡ 0 = ground arith in
            let clear = rw empty at bit in ground (arith, has_bit-zero k)
      ]

  range_nodes_step :
      (fuel startbit : ℕ) (rest : List Node) (next : ℕ)
      → leb startbit (start_of maxbit) ≡ true
      → (startbit + mapsize) % u32_mod ≡ next
      → range_nodes fuel next minbit maxbit ≡ some rest
      → range_nodes (suc fuel) startbit minbit maxbit
        ≡ some (node startbit (range_map startbit minbit maxbit) ∷ rest)
  unfolding range_nodes
  range_nodes_step fuel startbit rest next more step run = rw (more, range_nodes, step, run) refl

  record Spans (startbit : ℕ) (made : List Node) : Type 0 where
    chain : Chain startbit made
    end : end_of startbit made ≡ start_of maxbit + mapsize
    bits : (i : ℕ) → get_nodes made i ≡ (leb startbit i && leb minbit i && leb i maxbit)

  range_window :
      (startbit i : ℕ) (rest : List Node)
      → startbit % mapsize ≡ 0
      → start_of minbit ≤ startbit
      → startbit ≤ start_of maxbit
      → Spans (startbit + mapsize) rest
      → get_nodes (node startbit (range_map startbit minbit maxbit) ∷ rest) i
        ≡ (leb startbit i && leb minbit i && leb i maxbit)
  unfolding get_nodes
  range_window startbit i rest a lo hi spans = elim (Bool-cases (leb startbit i)) [
    | inr before ↦ rw before refl
    | inl from ↦ elim (Bool-cases (ltb i (startbit + mapsize))) [
      | inr after ↦ rw (from, after) (ground (arith, spans.bits i))
      | inl inside ↦
          let back : startbit + (i - startbit) ≡ i = ground arith in
          let here = range_map-bits startbit (i - startbit) a lo hi (ground arith) in
          rw (from, inside) (rw back at here)
    ]
  ]

  range_nodes-Spans :
      (fuel startbit : ℕ)
      → startbit % mapsize ≡ 0
      → start_of minbit ≤ startbit
      → startbit ≤ start_of maxbit + mapsize
      → start_of maxbit + mapsize < u32_mod
      → start_of maxbit + 2 * mapsize ≤ startbit + mapsize * fuel
      → (made : List Node) × (range_nodes fuel startbit minbit maxbit ≡ some made)
        × Spans startbit made
  unfolding range_nodes get_nodes
  range_nodes-Spans zero startbit a lo hi room enough = absurd (omega arith)
  range_nodes-Spans (suc fuel) startbit a lo hi room enough =
      elim (Bool-cases (leb startbit (start_of maxbit))) [
        | inr done ↦ (
          [],
          rw (done, range_nodes) refl,
          record { chain = tt; end = ground arith; bits = λ i. ground arith },
        )
        | inl more ↦
            let step : (startbit + mapsize) % u32_mod ≡ startbit + mapsize = ground arith in
            let (rest, run, spans) =
              range_nodes-Spans fuel (startbit + mapsize) (omega arith) (omega arith) (ground arith)
                room (omega arith) in
            (
              node startbit (range_map startbit minbit maxbit) ∷ rest,
              range_nodes_step fuel startbit rest (startbit + mapsize) more step run,
              record {
                chain = (
                  omega arith,
                  a,
                  range_map-pos startbit a lo (ground arith),
                  range_map-lt startbit,
                  spans.chain,
                );
                end = spans.end;
                bits = λ i. range_window startbit i rest a lo (ground arith) spans;
              },
            )
      ]

-- For a range in order whose last node ends below 2 ^ 32, with fuel for a round per 64 bits and two
-- more, `ebitmap_init_range` succeeds: the bitmap is well formed, and a bit is set in it exactly when
-- it lies in the range, both ends included.
pub init_range-bits :
    (fuel minbit maxbit : ℕ)
    → minbit ≤ maxbit
    → start_of maxbit + mapsize < u32_mod
    → start_of maxbit + 2 * mapsize ≤ mapsize * fuel
    → (e : Ebitmap) × (init_range fuel minbit maxbit ≡ some (ok e))
      × IsValid e
      × ((i : ℕ) → get_bit e i ≡ (leb minbit i && leb i maxbit))
unfolding init_range
init_range-bits fuel minbit maxbit h room enough =
    let (made, run, spans) =
      range_nodes-Spans minbit maxbit h fuel (start_of minbit) (omega arith) (omega arith)
        (omega arith) room (omega arith) in
    let ordered : ltb maxbit minbit ≡ false = ground arith in
    let low : ((start_of minbit + mapsize) % u32_mod == 0) ≡ false = ground arith in
    let high : ((start_of maxbit + mapsize) % u32_mod == 0) ≡ false = ground arith in
    let exact : (start_of maxbit + mapsize) % u32_mod ≡ start_of maxbit + mapsize = omega arith in
    let e = ebitmap made (start_of maxbit + mapsize) in
    let valid : IsValid e = record {
      chain = Chain-le made (omega arith) spans.chain;
      top = sym (end_of_start (start_of minbit) 0 made (omega (arith, spans.end)) ∙ spans.end);
      fits = room;
    } in
    (
      e,
      rw (ordered, low, high, init_range, run, exact) refl,
      valid,
      λ i. rw (get_bit-nodes valid i) (ground (arith, spans.bits i)),
    )

-- A range out of order is refused with EINVAL, and one in order whose last node would reach 2 ^ 32
-- with EOVERFLOW.
pub init_range-refuses :
    (fuel minbit maxbit : ℕ)
    → maxbit < u32_mod
    → (maxbit < minbit → init_range fuel minbit maxbit ≡ some (err einval))
      × (minbit ≤ maxbit
          → u32_mod - mapsize ≤ maxbit
          → init_range fuel minbit maxbit ≡ some (err eoverflow))
unfolding init_range
init_range-refuses fuel minbit maxbit h = (λ p. ground arith, λ p q. ground arith)
