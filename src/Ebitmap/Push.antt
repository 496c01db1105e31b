-- ===== src/Ebitmap/Push.antt =====
-- The node that a round makes only for a map that is not zero, and the bitmap of the nodes made.
use ap_policy.Common.{ℕ, ◌+◌, ◌-◌, ◌%◌, ◌≤◌, ◌<◌, ◌≡◌, List, ◌∷◌, arith, ◌==◌, inl, inr, Bool-cases}
use ap_policy.Ebitmap.{
  Node, node, ebitmap, mapsize, map_mod, u32_mod, get_nodes, last_highbit, push_nonzero,
}
use ap_policy.Ebitmap.Maps.{has_bit-zero}
use ap_policy.Ebitmap.Shape.{
  Chain, Chain-le, end_of, end_of_mono, IsValid, get_nodes_below, last_highbit-end_of,
}

module _ (s m : ℕ) (rest : List Node) where
  -- leaving out an empty map changes no bit
  pub push_nonzero-bits :
      (i : ℕ)
      → Chain (s + mapsize) rest
      → get_nodes (push_nonzero s m rest) i ≡ get_nodes (node s m ∷ rest) i
  unfolding get_nodes
  push_nonzero-bits i c =
      ground (arith, has_bit-zero (i - s), get_nodes_below (s + mapsize) i rest c)

  pub push_nonzero-Chain :
      (lo : ℕ)
      → lo ≤ s
      → s % mapsize ≡ 0
      → m < map_mod
      → Chain (s + mapsize) rest
      → Chain lo (push_nonzero s m rest)
  push_nonzero-Chain lo h a b c = elim (Bool-cases (m == 0)) [
    | inl z ↦ rw z (Chain-le rest (omega arith) c)
    | inr nz ↦ rw nz (h, a, ground arith, b, c)
  ]

  pub push_nonzero-end_of :
      (lo : ℕ) → lo ≤ s + mapsize → end_of lo (push_nonzero s m rest) ≤ end_of (s + mapsize) rest
  push_nonzero-end_of lo h = elim (Bool-cases (m == 0)) [
    | inl z ↦ rw z (end_of_mono lo (s + mapsize) rest h)
    | inr nz ↦ rw nz (omega arith)
  ]

-- the bitmap that `ebitmap_and`, `ebitmap_xor` and `ebitmap_not` return
pub built-IsValid :
    (made : List Node)
    → Chain 0 made
    → end_of 0 made < u32_mod
    → IsValid (ebitmap made (last_highbit 0 made))
built-IsValid made c h =
    let top = last_highbit-end_of 0 made c h in record { chain = c; top = top; fits = rw top h }
