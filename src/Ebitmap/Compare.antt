-- ===== src/Ebitmap/Compare.antt =====
-- `ebitmap_cmp`, `ebitmap_contains` and `ebitmap_match_any`, the loops that compare two bitmaps.
pub mod Extensional
pub mod Subset
pub mod Overlap
use ap_policy.Common.{
  ℕ, Bool, true, false, List, [], ◌∷◌, ltb, leb, ◌==◌, if◌then◌else◌, ◌&&◌, bit_and,
}
use ap_policy.Ebitmap.{Node, Ebitmap}

pub cmp_nodes : List Node → List Node → Bool
cmp_nodes [] [] = true
cmp_nodes [] (n2 ∷ r2) = false
cmp_nodes (n1 ∷ r1) [] = false
cmp_nodes (n1 ∷ r1) (n2 ∷ r2) =
    if n1.startbit == n2.startbit && n1.map == n2.map then cmp_nodes r1 r2 else false

pub cmp : Ebitmap → Ebitmap → Bool
unfolding cmp_nodes
cmp e1 e2 = if e1.highbit == e2.highbit then cmp_nodes e1.nodes e2.nodes else false

pub contains_nodes : List Node → List Node → Bool
contains_nodes [] [] = true
contains_nodes [] (n2 ∷ r2) = false
contains_nodes (n1 ∷ r1) [] = true
contains_nodes (n1 ∷ r1) (n2 ∷ r2) = elim (leb n1.startbit n2.startbit) [
  | false ↦ false
  | true ↦ elim (ltb n1.startbit n2.startbit) [
    | true ↦ contains_nodes r1 (n2 ∷ r2)
    | false ↦ if bit_and n1.map n2.map == n2.map then contains_nodes r1 r2 else false
  ]
]

unfoldable pub contains : Ebitmap → Ebitmap → Bool
unfolding contains_nodes
contains e1 e2 = if ltb e1.highbit e2.highbit then false else contains_nodes e1.nodes e2.nodes

pub match_any_nodes : List Node → List Node → Bool
match_any_nodes [] ys = false
match_any_nodes (n1 ∷ r1) [] = false
match_any_nodes (n1 ∷ r1) (n2 ∷ r2) = elim (ltb n1.startbit n2.startbit) [
  | true ↦ match_any_nodes r1 (n2 ∷ r2)
  | false ↦ elim (ltb n2.startbit n1.startbit) [
    | true ↦ match_any_nodes (n1 ∷ r1) r2
    | false ↦ if bit_and n1.map n2.map == 0 then match_any_nodes r1 r2 else true
  ]
]

pub match_any : Ebitmap → Ebitmap → Bool
unfolding match_any_nodes
match_any e1 e2 = match_any_nodes e1.nodes e2.nodes
