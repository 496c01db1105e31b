-- ===== src/Ebitmap/Union.antt =====
-- `ebitmap_or` and `ebitmap_union`: the merge of two node lists holds the union.
use ap_policy.Common.{
  ℕ, ◌+◌, ◌-◌, ◌≡◌, refl, List, [], ◌∷◌, arith, ◌||◌, ◌∙◌, comparison, same, below, above, max,
}
use ap_policy.Common.Bits.{bit_or-lt, le-bit_or}
use ap_policy.Ebitmap.{Node, Ebitmap, mapsize, get_nodes, get_bit, or_nodes, or, union}
use ap_policy.Ebitmap.Maps.{has_bit-or}
use ap_policy.Ebitmap.Shape.{Chain, end_of, end_of-le, IsValid, get_bit-nodes}

or_nodes-bits :
    (lo lo' i : ℕ) (xs ys : List Node)
    → Chain lo xs
    → Chain lo' ys
    → get_nodes (or_nodes xs ys) i ≡ (get_nodes xs i || get_nodes ys i)
unfolding get_nodes or_nodes
or_nodes-bits lo lo' i [] [] c d = refl
or_nodes-bits lo lo' i [] (n2 ∷ r2) c d =
    ground (arith, or_nodes-bits 0 (n2.startbit + mapsize) i [] r2 tt d.4)
or_nodes-bits lo lo' i (n1 ∷ r1) [] c d =
    ground (arith, or_nodes-bits (n1.startbit + mapsize) 0 i r1 [] c.4 tt)
or_nodes-bits lo lo' i (n1 ∷ r1) (n2 ∷ r2) c d = elim (comparison n1.startbit n2.startbit) [
  | same e eq ↦
      rw (e, or_nodes)
        (ground (
          arith,
          has_bit-or n1.map n2.map (i - n1.startbit),
          or_nodes-bits (n1.startbit + mapsize) (n2.startbit + mapsize) i r1 r2 c.4 d.4,
        ))
  | below ne lt ge p ↦
      rw (ne, lt, or_nodes)
        (ground (arith, or_nodes-bits (n1.startbit + mapsize) lo' i r1 (n2 ∷ r2) c.4 d))
  | above ne ge lt p ↦
      rw (ne, ge, or_nodes)
        (ground (arith, or_nodes-bits lo (n2.startbit + mapsize) i (n1 ∷ r1) r2 c d.4))
]

or_nodes-Chain :
    (lo : ℕ) (xs ys : List Node) → Chain lo xs → Chain lo ys → Chain lo (or_nodes xs ys)
unfolding or_nodes
or_nodes-Chain lo [] [] c d = tt
or_nodes-Chain lo [] (n2 ∷ r2) c d =
    (d.0, d.1, d.2, d.3, or_nodes-Chain (n2.startbit + mapsize) [] r2 tt d.4)
or_nodes-Chain lo (n1 ∷ r1) [] c d =
    (c.0, c.1, c.2, c.3, or_nodes-Chain (n1.startbit + mapsize) r1 [] c.4 tt)
or_nodes-Chain lo (n1 ∷ r1) (n2 ∷ r2) c d = elim (comparison n1.startbit n2.startbit) [
  | same e eq ↦
      rw (e, or_nodes)
        (
          c.0,
          c.1,
          omega (arith, le-bit_or mapsize n1.map n2.map c.3),
          bit_or-lt mapsize n1.map n2.map c.3 d.3,
          or_nodes-Chain (n1.startbit + mapsize) r1 r2 c.4 (rw eq d.4),
        )
  | below ne lt ge p ↦
      rw (ne, lt, or_nodes)
        (
          c.0,
          c.1,
          c.2,
          c.3,
          or_nodes-Chain (n1.startbit + mapsize) r1 (n2 ∷ r2) c.4 (omega arith, d.1, d.2, d.3, d.4),
        )
  | above ne ge lt p ↦
      rw (ne, ge, or_nodes)
        (
          d.0,
          d.1,
          d.2,
          d.3,
          or_nodes-Chain (n2.startbit + mapsize) (n1 ∷ r1) r2 (omega arith, c.1, c.2, c.3, c.4) d.4,
        )
]

or_nodes-end_of :
    (lo : ℕ) (xs ys : List Node)
    → Chain lo xs
    → Chain lo ys
    → end_of lo (or_nodes xs ys) ≡ max (end_of lo xs) (end_of lo ys)
unfolding or_nodes
or_nodes-end_of lo [] [] c d = omega arith
or_nodes-end_of lo [] (n2 ∷ r2) c d =
    let end = n2.startbit + mapsize in
    omega (arith, or_nodes-end_of end [] r2 tt d.4, end_of-le end r2 d.4)
or_nodes-end_of lo (n1 ∷ r1) [] c d =
    let end = n1.startbit + mapsize in
    omega (arith, or_nodes-end_of end r1 [] c.4 tt, end_of-le end r1 c.4)
or_nodes-end_of lo (n1 ∷ r1) (n2 ∷ r2) c d = elim (comparison n1.startbit n2.startbit) [
  | same e eq ↦
      rw (e, or_nodes) (or_nodes-end_of (n1.startbit + mapsize) r1 r2 c.4 (rw eq d.4) ∙ rw eq refl)
  | below ne lt ge p ↦
      rw (ne, lt, or_nodes)
        (or_nodes-end_of (n1.startbit + mapsize) r1 (n2 ∷ r2) c.4 (omega arith, d.1, d.2, d.3, d.4))
  | above ne ge lt p ↦
      rw (ne, ge, or_nodes)
        (or_nodes-end_of (n2.startbit + mapsize) (n1 ∷ r1) r2 (omega arith, c.1, c.2, c.3, c.4) d.4)
]

or-IsValid : (e1 e2 : Ebitmap) → IsValid e1 → IsValid e2 → IsValid (or e1 e2)
unfolding or
or-IsValid e1 e2 v1 v2 = record {
  chain = or_nodes-Chain 0 e1.nodes e2.nodes v1.chain v2.chain;
  top = ground (arith, or_nodes-end_of 0 e1.nodes e2.nodes v1.chain v2.chain);
  fits = ground arith;
}

-- `ebitmap_or` of two well-formed bitmaps is well formed, and a bit is set in it exactly when it is
-- set in one of them.
pub or-bits :
    (e1 e2 : Ebitmap)
    → IsValid e1
    → IsValid e2
    → IsValid (or e1 e2) × ((i : ℕ) → get_bit (or e1 e2) i ≡ (get_bit e1 i || get_bit e2 i))
or-bits e1 e2 v1 v2 =
    let valid = or-IsValid e1 e2 v1 v2 in
    (
      valid,
      λ i.
          rw (get_bit-nodes valid i, get_bit-nodes v1 i, get_bit-nodes v2 i)
            (unfold or in or_nodes-bits 0 0 i e1.nodes e2.nodes v1.chain v2.chain),
    )

-- `ebitmap_union` leaves in its first argument the union of the two.
union-or : (dst e : Ebitmap) → union dst e ≡ or dst e
unfolding union
union-or dst e = refl
