-- ===== src/Ebitmap/Update/Laws.antt =====
-- What `ebitmap_set_bit` does to each bit, and that it keeps a bitmap well formed.
use ap_policy.Common.{
  ℕ, ◌+◌, ◌-◌, ◌%◌, ◌^◌, ◌≤◌, ◌<◌, ◌≡◌, refl, ◌∙◌, Bool, true, false, Option, some, none, List, [],
  ◌∷◌, ltb, leb, ◌==◌, if◌then◌else◌, bit_and, bit_or, arith, inl, inr, ◌↔◌, Bool-cases,
}
use ap_policy.Common.Bits.{bit_and-lt, bit_or-lt, le-bit_or}
use ap_policy.Common.Bits.Masks.{test_bit-pow, pow-lt}
use native.Mathlib.Nat.{one-le-pow}
use ap_policy.Common.Results.{ok, err, einval}
use ap_policy.Ebitmap.{
  Node, Ebitmap, ebitmap, mapsize, map_mod, u32_mod, get_nodes, get_bit, has_bit,
}
use ap_policy.Ebitmap.Maps.{
  has_bit-test_bit, has_bit-or, has_bit-and, has_bit-complement, has_bit-zero,
}
use ap_policy.Ebitmap.Shape.{
  Chain, Chain-le, end_of, end_of_mono, IsValid, get_nodes_below, get_bit-nodes,
}
use ap_policy.Ebitmap.Update.{start_of, drop_high, write_node, make_node, set_nodes, set_bit}

has_bit-pow : (n k : ℕ) → has_bit (2 ^ n) k ≡ k == n
has_bit-pow n k = has_bit-test_bit (2 ^ n) k ∙ test_bit-pow n k

-- `map |= MAPBIT << j` and `map &= ~(MAPBIT << j)`
has_bit-set : (m j k : ℕ) → has_bit (bit_or m (2 ^ j)) k ≡ (if k == j then true else has_bit m k)
has_bit-set m j k = ground (arith, has_bit-or m (2 ^ j) k, has_bit-pow j k)

has_bit-clear :
    (m j k : ℕ)
    → j < mapsize
    → k < mapsize
    → has_bit (bit_and m (map_mod - 1 - 2 ^ j)) k ≡ (if k == j then false else has_bit m k)
has_bit-clear m j k h lt = ground (
  arith,
  has_bit-and m (map_mod - 1 - 2 ^ j) k,
  has_bit-complement (2 ^ j) k (pow-lt j h) lt,
  has_bit-pow j k,
)

-- the bits after `bit` is written
abbrev written : List Node → ℕ → Bool → ℕ → Bool
written xs bit value i = if i == bit then value else get_nodes xs i

-- where the node behind ends
abbrev after : Option Node → ℕ
after none = 0
after (some p) = p.startbit + mapsize

-- the outcome of a write in a list that follows `prev`
record Wrote (prev : Option Node) (xs : List Node) (bit : ℕ) (value : Bool) (r : List Node × ℕ)
    : Type 0 where
  chain : Chain (after prev) r.0
  top : r.1 ≡ end_of (after prev) r.0
  fits : r.1 < u32_mod
  bits : (i : ℕ) → get_nodes r.0 i ≡ written xs bit value i

module _ (prev : Option Node) (high bit : ℕ) (fits : high < u32_mod) where
  drop_high-end_of :
      (rest : List Node) (lo : ℕ)
      → after prev ≤ lo
      → Chain lo rest
      → high ≡ end_of lo rest
      → drop_high prev rest high ≡ end_of (after prev) rest
  unfolding drop_high
  drop_high-end_of [] lo h c top = ground arith
  drop_high-end_of (n ∷ rest) lo h c top = top

  module _ (n : Node) (rest : List Node) (c : Chain (after prev) (n ∷ rest))
      (top : high ≡ end_of (after prev) (n ∷ rest)) (from : n.startbit ≤ bit)
      (to : bit < n.startbit + mapsize) where
    write_node-true : Wrote prev (n ∷ rest) bit true (write_node prev n rest high bit true)
    unfolding write_node get_nodes
    write_node-true =
        let j = bit - n.startbit in
        record {
          chain = (
            c.0,
            c.1,
            omega (arith, c.2, le-bit_or mapsize n.map (2 ^ j) c.3),
            bit_or-lt mapsize n.map (2 ^ j) c.3 (pow-lt j (omega arith)),
            c.4,
          );
          top = top;
          fits = fits;
          bits = λ i. ground (arith, has_bit-set n.map j (i - n.startbit));
        }

    write_node-false : Wrote prev (n ∷ rest) bit false (write_node prev n rest high bit false)
    unfolding write_node get_nodes
    write_node-false =
        let j = bit - n.startbit in
        let m = bit_and n.map (map_mod - 1 - 2 ^ j) in
        elim (Bool-cases (m == 0)) [
          | inl z ↦
              let empty : m ≡ 0 = ground arith in
              let top' = drop_high-end_of rest (n.startbit + mapsize) (omega arith) c.4 top in
              let end = end_of_mono (after prev) (n.startbit + mapsize) rest (omega arith) in
              rw (z, write_node)
                (record {
                  chain = Chain-le rest (omega arith) c.4;
                  top = top';
                  fits = omega arith;
                  bits = λ i. ground (
                    arith,
                    has_bit-clear n.map j (i - n.startbit),
                    has_bit-zero (i - n.startbit),
                    get_nodes_below (n.startbit + mapsize) i rest c.4,
                  );
                })
          | inr nz ↦
              rw (nz, write_node)
                (record {
                  chain = (
                    c.0,
                    c.1,
                    ground arith,
                    bit_and-lt mapsize n.map (map_mod - 1 - 2 ^ j) c.3,
                    c.4,
                  );
                  top = top;
                  fits = fits;
                  bits = λ i. ground (arith, has_bit-clear n.map j (i - n.startbit));
                })
        ]

    write_node-Wrote :
        (value : Bool) → Wrote prev (n ∷ rest) bit value (write_node prev n rest high bit value)
    write_node-Wrote true = write_node-true
    write_node-Wrote false = write_node-false

module _ (bit : ℕ) (room : start_of bit + mapsize < u32_mod) where
  make_node-Wrote :
      (prev : Option Node) (high : ℕ) (rest : List Node) (value : Bool)
      → high < u32_mod
      → Chain (after prev) rest
      → high ≡ end_of (after prev) rest
      → after prev ≤ start_of bit
      → Chain (bit + 1) rest
      → Wrote prev rest bit value (make_node rest high bit value)
  unfolding make_node get_nodes
  make_node-Wrote prev high rest false fits c top before behind = record {
    chain = c;
    top = top;
    fits = fits;
    bits = λ i. ground (arith, get_nodes_below (bit + 1) i rest behind);
  }
  make_node-Wrote prev high [] true fits c top before behind =
      let j = bit - start_of bit in
      record {
        chain = (before, omega arith, one-le-pow j 2 (omega arith), pow-lt j (omega arith), tt);
        top = omega arith;
        fits = omega arith;
        bits = λ i. ground (arith, has_bit-pow j (i - start_of bit));
      }
  make_node-Wrote prev high (n ∷ rest) true fits c top before behind =
      let j = bit - start_of bit in
      record {
        chain = (
          before,
          omega arith,
          one-le-pow j 2 (omega arith),
          pow-lt j (omega arith),
          (omega arith, c.1, c.2, c.3, c.4),
        );
        top = top;
        fits = fits;
        bits = λ i. ground (arith, has_bit-pow j (i - start_of bit));
      }

  set_nodes-Wrote :
      (prev : Option Node) (high : ℕ) (xs : List Node) (value : Bool)
      → high < u32_mod
      → Chain (after prev) xs
      → high ≡ end_of (after prev) xs
      → after prev ≤ start_of bit
      → Wrote prev xs bit value (set_nodes prev xs high bit value)
  unfolding set_nodes get_nodes
  set_nodes-Wrote prev high [] value fits c top before =
      make_node-Wrote prev high [] value fits c top before tt
  set_nodes-Wrote prev high (n ∷ rest) value fits c top before =
      elim (Bool-cases (leb n.startbit bit)) [
        | inr later ↦
            rw (later, set_nodes)
              (make_node-Wrote prev high (n ∷ rest) value fits c top before
                (ground arith, c.1, c.2, c.3, c.4))
        | inl from ↦ elim (Bool-cases (ltb bit (n.startbit + mapsize))) [
          | inl to ↦
              rw (from, to, set_nodes)
                (write_node-Wrote prev high bit fits n rest c top (ground arith) (ground arith)
                  value)
          | inr past ↦
              let next = set_nodes-Wrote (some n) high rest value fits c.4 top (ground arith) in
              rw (from, past, set_nodes)
                (record {
                  chain = (c.0, c.1, c.2, c.3, next.chain);
                  top = next.top;
                  fits = next.fits;
                  bits = λ i. ground (arith, next.bits i);
                })
        ]
      ]

-- When the node of the bit ends below 2 ^ 32, `ebitmap_set_bit` on a well-formed bitmap succeeds; the
-- bitmap stays well formed, the bit has the value written, and no other bit changes.
pub set_bit-bits :
    (e : Ebitmap) (bit : ℕ) (value : Bool)
    → IsValid e
    → start_of bit + mapsize < u32_mod
    → (e' : Ebitmap) × (set_bit e bit value ≡ ok e')
      × IsValid e'
      × ((i : ℕ) → get_bit e' i ≡ (if i == bit then value else get_bit e i))
unfolding set_bit
set_bit-bits e bit value v room =
    let w =
      set_nodes-Wrote bit room none e.highbit e.nodes value v.fits v.chain v.top (omega arith) in
    let r = set_nodes none e.nodes e.highbit bit value in
    let valid : IsValid (ebitmap r.0 r.1) = record {
      chain = w.chain;
      top = w.top;
      fits = w.fits;
    } in
    let fine : ((start_of bit + mapsize) % u32_mod == 0) ≡ false = ground arith in
    (
      ebitmap r.0 r.1,
      rw (fine, set_bit) refl,
      valid,
      λ i. rw (get_bit-nodes valid i, get_bit-nodes v i) (w.bits i),
    )

-- `ebitmap_set_bit` is refused exactly for the bits of the last 64 that a uint32_t can name.
pub set_bit-refuses :
    (e : Ebitmap) (bit : ℕ) (value : Bool)
    → bit < u32_mod
    → (set_bit e bit value ≡ err einval) ↔ (u32_mod - mapsize ≤ bit)
unfolding set_bit
set_bit-refuses e bit value h = (λ r. ground arith, λ p. ground arith)
