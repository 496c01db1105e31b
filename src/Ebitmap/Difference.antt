-- ===== src/Ebitmap/Difference.antt =====
-- `ebitmap_xor`: the merge of two node lists holds the symmetric difference.
use ap_policy.Common.{
  ℕ, ◌+◌, ◌-◌, ◌≤◌, ◌≡◌, refl, List, [], ◌∷◌, arith, xor as xor_bool, comparison, same, below,
  above, bit_xor, max,
}
use ap_policy.Common.Bits.{bit_xor-lt}
use ap_policy.Ebitmap.{Node, Ebitmap, mapsize, get_nodes, get_bit, xor_nodes, xor}
use ap_policy.Ebitmap.Maps.{has_bit-xor}
use ap_policy.Ebitmap.Push.{
  push_nonzero-bits, push_nonzero-Chain, push_nonzero-end_of, built-IsValid,
}
use ap_policy.Ebitmap.Shape.{Chain, end_of, end_of-le, IsValid, get_bit-nodes}

xor_nodes-Chain :
    (lo : ℕ) (xs ys : List Node)
    → Chain lo xs
    → Chain lo ys
    → Chain lo (xor_nodes xs ys) × (end_of lo (xor_nodes xs ys) ≤ max (end_of lo xs) (end_of lo ys))
unfolding xor_nodes
xor_nodes-Chain lo [] [] c d = (tt, omega arith)
xor_nodes-Chain lo [] (n2 ∷ r2) c d =
    let rest = xor_nodes-Chain (n2.startbit + mapsize) [] r2 tt d.4 in
    (
      push_nonzero-Chain n2.startbit n2.map (xor_nodes [] r2) lo d.0 d.1 d.3 rest.0,
      omega (
        arith,
        rest.1,
        end_of-le (n2.startbit + mapsize) r2 d.4,
        push_nonzero-end_of n2.startbit n2.map (xor_nodes [] r2) lo (omega arith),
      ),
    )
xor_nodes-Chain lo (n1 ∷ r1) [] c d =
    let rest = xor_nodes-Chain (n1.startbit + mapsize) r1 [] c.4 tt in
    (
      push_nonzero-Chain n1.startbit n1.map (xor_nodes r1 []) lo c.0 c.1 c.3 rest.0,
      omega (
        arith,
        rest.1,
        end_of-le (n1.startbit + mapsize) r1 c.4,
        push_nonzero-end_of n1.startbit n1.map (xor_nodes r1 []) lo (omega arith),
      ),
    )
xor_nodes-Chain lo (n1 ∷ r1) (n2 ∷ r2) c d = elim (comparison n1.startbit n2.startbit) [
  | same e eq ↦
      let m = bit_xor n1.map n2.map in
      let rest = xor_nodes-Chain (n1.startbit + mapsize) r1 r2 c.4 (rw eq d.4) in
      rw (e, xor_nodes)
        (
          push_nonzero-Chain n1.startbit m (xor_nodes r1 r2) lo c.0 c.1
              (bit_xor-lt mapsize n1.map n2.map c.3 d.3) rest.0,
          rw (← eq) (
              omega (
                arith,
                rest.1,
                push_nonzero-end_of n1.startbit m (xor_nodes r1 r2) lo (omega arith),
              )),
        )
  | below ne lt ge p ↦
      let rest =
        xor_nodes-Chain (n1.startbit + mapsize) r1 (n2 ∷ r2) c.4
          (omega arith, d.1, d.2, d.3, d.4) in
      let end = push_nonzero-end_of n1.startbit n1.map (xor_nodes r1 (n2 ∷ r2)) lo (omega arith) in
      rw (ne, lt, xor_nodes)
        (
          push_nonzero-Chain n1.startbit n1.map (xor_nodes r1 (n2 ∷ r2)) lo c.0 c.1 c.3 rest.0,
          omega (arith, rest.1, end),
        )
  | above ne ge lt p ↦
      let rest =
        xor_nodes-Chain (n2.startbit + mapsize) (n1 ∷ r1) r2 (omega arith, c.1, c.2, c.3, c.4)
          d.4 in
      let end = push_nonzero-end_of n2.startbit n2.map (xor_nodes (n1 ∷ r1) r2) lo (omega arith) in
      rw (ne, ge, xor_nodes)
        (
          push_nonzero-Chain n2.startbit n2.map (xor_nodes (n1 ∷ r1) r2) lo d.0 d.1 d.3 rest.0,
          omega (arith, rest.1, end),
        )
]

xor_nodes-bits :
    (lo i : ℕ) (xs ys : List Node)
    → Chain lo xs
    → Chain lo ys
    → get_nodes (xor_nodes xs ys) i ≡ xor_bool (get_nodes xs i) (get_nodes ys i)
unfolding get_nodes xor_nodes xor_bool
xor_nodes-bits lo i [] [] c d = refl
xor_nodes-bits lo i [] (n2 ∷ r2) c d =
    let end = n2.startbit + mapsize in
    ground (
      arith,
      push_nonzero-bits n2.startbit n2.map (xor_nodes [] r2) i (xor_nodes-Chain end [] r2 tt d.4).0,
      xor_nodes-bits end i [] r2 tt d.4,
    )
xor_nodes-bits lo i (n1 ∷ r1) [] c d =
    let end = n1.startbit + mapsize in
    ground (
      arith,
      push_nonzero-bits n1.startbit n1.map (xor_nodes r1 []) i (xor_nodes-Chain end r1 [] c.4 tt).0,
      xor_nodes-bits end i r1 [] c.4 tt,
    )
xor_nodes-bits lo i (n1 ∷ r1) (n2 ∷ r2) c d = elim (comparison n1.startbit n2.startbit) [
  | same e eq ↦
      let d' = rw (← eq) at d.4 in
      rw (e, xor_nodes)
        (ground (
          arith,
          push_nonzero-bits n1.startbit (bit_xor n1.map n2.map) (xor_nodes r1 r2) i
              (xor_nodes-Chain (n1.startbit + mapsize) r1 r2 c.4 d').0,
          has_bit-xor n1.map n2.map (i - n1.startbit),
          xor_nodes-bits (n1.startbit + mapsize) i r1 r2 c.4 d',
        ))
  | below ne lt ge p ↦
      let d' : Chain (n1.startbit + mapsize) (n2 ∷ r2) = (omega arith, d.1, d.2, d.3, d.4) in
      rw (ne, lt, xor_nodes)
        (ground (
          arith,
          push_nonzero-bits n1.startbit n1.map (xor_nodes r1 (n2 ∷ r2)) i
              (xor_nodes-Chain (n1.startbit + mapsize) r1 (n2 ∷ r2) c.4 d').0,
          xor_nodes-bits (n1.startbit + mapsize) i r1 (n2 ∷ r2) c.4 d',
        ))
  | above ne ge lt p ↦
      let c' : Chain (n2.startbit + mapsize) (n1 ∷ r1) = (omega arith, c.1, c.2, c.3, c.4) in
      rw (ne, ge, xor_nodes)
        (ground (
          arith,
          push_nonzero-bits n2.startbit n2.map (xor_nodes (n1 ∷ r1) r2) i
              (xor_nodes-Chain (n2.startbit + mapsize) (n1 ∷ r1) r2 c' d.4).0,
          xor_nodes-bits (n2.startbit + mapsize) i (n1 ∷ r1) r2 c' d.4,
        ))
]

pub xor-IsValid : (e1 e2 : Ebitmap) → IsValid e1 → IsValid e2 → IsValid (xor e1 e2)
unfolding xor
xor-IsValid e1 e2 v1 v2 =
    let shape = xor_nodes-Chain 0 e1.nodes e2.nodes v1.chain v2.chain in
    built-IsValid (xor_nodes e1.nodes e2.nodes) shape.0 (omega (arith, shape.1))

-- `ebitmap_xor` of two well-formed bitmaps is well formed, and a bit is set in it exactly when it is
-- set in one of them and not in the other.
pub xor-bits :
    (e1 e2 : Ebitmap)
    → IsValid e1
    → IsValid e2
    → IsValid (xor e1 e2)
      × ((i : ℕ) → get_bit (xor e1 e2) i ≡ xor_bool (get_bit e1 i) (get_bit e2 i))
xor-bits e1 e2 v1 v2 =
    let valid = xor-IsValid e1 e2 v1 v2 in
    (
      valid,
      λ i.
          rw (get_bit-nodes valid i, get_bit-nodes v1 i, get_bit-nodes v2 i)
            (unfold xor in xor_nodes-bits 0 i e1.nodes e2.nodes v1.chain v2.chain),
    )

pub xor-highbit :
    (e1 e2 : Ebitmap) → IsValid e1 → IsValid e2 → (xor e1 e2).highbit ≤ max e1.highbit e2.highbit
xor-highbit e1 e2 v1 v2 =
    let shape = xor_nodes-Chain 0 e1.nodes e2.nodes v1.chain v2.chain in
    let valid = xor-IsValid e1 e2 v1 v2 in
    let top = valid.top in unfold xor in omega (arith, shape.1)
