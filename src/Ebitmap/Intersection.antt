-- ===== src/Ebitmap/Intersection.antt =====
-- `ebitmap_and`: the walk over two node lists holds the intersection.
use ap_policy.Common.{
  ℕ, ◌+◌, ◌-◌, ◌≤◌, ◌≡◌, refl, List, [], ◌∷◌, arith, ◌&&◌, comparison, same, below, above, bit_and,
}
use ap_policy.Common.Bits.{bit_and-lt}
use ap_policy.Ebitmap.{Node, Ebitmap, mapsize, get_nodes, get_bit, and_nodes, and}
use ap_policy.Ebitmap.Maps.{has_bit-and}
use ap_policy.Ebitmap.Push.{
  push_nonzero-bits, push_nonzero-Chain, push_nonzero-end_of, built-IsValid,
}
use ap_policy.Ebitmap.Shape.{
  Chain, Chain-le, end_of, end_of_mono, end_of-le, IsValid, get_bit-nodes,
}

and_nodes-Chain :
    (lo : ℕ) (xs ys : List Node)
    → Chain lo xs
    → Chain lo ys
    → Chain lo (and_nodes xs ys) × (end_of lo (and_nodes xs ys) ≤ end_of lo xs)
unfolding and_nodes
and_nodes-Chain lo [] ys c d = (tt, omega arith)
and_nodes-Chain lo (n1 ∷ r1) [] c d = (tt, omega (arith, end_of-le (n1.startbit + mapsize) r1 c.4))
and_nodes-Chain lo (n1 ∷ r1) (n2 ∷ r2) c d = elim (comparison n1.startbit n2.startbit) [
  | same e eq ↦
      let m = bit_and n1.map n2.map in
      let rest = and_nodes-Chain (n1.startbit + mapsize) r1 r2 c.4 (rw eq d.4) in
      rw (e, and_nodes)
        (
          push_nonzero-Chain n1.startbit m (and_nodes r1 r2) lo c.0 c.1
              (bit_and-lt mapsize n1.map n2.map c.3) rest.0,
          omega
              (arith, rest.1, push_nonzero-end_of n1.startbit m (and_nodes r1 r2) lo (omega arith)),
        )
  | below ne lt ge p ↦
      let rest = and_nodes-Chain lo r1 (n2 ∷ r2) (Chain-le r1 (omega arith) c.4) d in
      rw (ne, ge, and_nodes)
        (rest.0, omega (arith, rest.1, end_of_mono lo (n1.startbit + mapsize) r1 (omega arith)))
  | above ne ge lt p ↦
      rw (ne, lt, and_nodes) (and_nodes-Chain lo (n1 ∷ r1) r2 c (Chain-le r2 (omega arith) d.4))
]

and_nodes-bits :
    (lo i : ℕ) (xs ys : List Node)
    → Chain lo xs
    → Chain lo ys
    → get_nodes (and_nodes xs ys) i ≡ (get_nodes xs i && get_nodes ys i)
unfolding get_nodes and_nodes
and_nodes-bits lo i [] ys c d = refl
and_nodes-bits lo i (n1 ∷ r1) [] c d = ground arith
and_nodes-bits lo i (n1 ∷ r1) (n2 ∷ r2) c d = elim (comparison n1.startbit n2.startbit) [
  | same e eq ↦
      let d' = rw (← eq) at d.4 in
      rw (e, and_nodes)
        (ground (
          arith,
          push_nonzero-bits n1.startbit (bit_and n1.map n2.map) (and_nodes r1 r2) i
              (and_nodes-Chain (n1.startbit + mapsize) r1 r2 c.4 d').0,
          has_bit-and n1.map n2.map (i - n1.startbit),
          and_nodes-bits (n1.startbit + mapsize) i r1 r2 c.4 d',
        ))
  | below ne lt ge p ↦
      rw (ne, ge, and_nodes)
        (ground (arith, and_nodes-bits lo i r1 (n2 ∷ r2) (Chain-le r1 (omega arith) c.4) d))
  | above ne ge lt p ↦
      rw (ne, lt, and_nodes)
        (ground (arith, and_nodes-bits lo i (n1 ∷ r1) r2 c (Chain-le r2 (omega arith) d.4)))
]

pub and-IsValid : (e1 e2 : Ebitmap) → IsValid e1 → IsValid e2 → IsValid (and e1 e2)
unfolding and
and-IsValid e1 e2 v1 v2 =
    let shape = and_nodes-Chain 0 e1.nodes e2.nodes v1.chain v2.chain in
    built-IsValid (and_nodes e1.nodes e2.nodes) shape.0 (omega (arith, shape.1))

-- `ebitmap_and` of two well-formed bitmaps is well formed, and a bit is set in it exactly when it is
-- set in both.
pub and-bits :
    (e1 e2 : Ebitmap)
    → IsValid e1
    → IsValid e2
    → IsValid (and e1 e2) × ((i : ℕ) → get_bit (and e1 e2) i ≡ (get_bit e1 i && get_bit e2 i))
and-bits e1 e2 v1 v2 =
    let valid = and-IsValid e1 e2 v1 v2 in
    (
      valid,
      λ i.
          rw (get_bit-nodes valid i, get_bit-nodes v1 i, get_bit-nodes v2 i)
            (unfold and in and_nodes-bits 0 i e1.nodes e2.nodes v1.chain v2.chain),
    )
