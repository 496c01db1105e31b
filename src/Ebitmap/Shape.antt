-- ===== src/Ebitmap/Shape.antt =====
-- Well-formed bitmaps: nodes at increasing multiples of the map size, none of them empty, and the
-- high bit at the end of the last one.
use ap_policy.Common.{ℕ, ◌+◌, ◌%◌, ◌≤◌, ◌<◌, ◌≡◌, refl, false, List, [], ◌∷◌, arith}
use ap_policy.Ebitmap.{
  Node, Ebitmap, mapsize, map_mod, u32_mod, get_nodes, get_bit, last_highbit, cpy_nodes, cpy,
}

abbrev pub Chain : ℕ → List Node → Type 0
Chain lo [] = Unit {0}
Chain lo (n ∷ rest) =
    (lo ≤ n.startbit)
    × (n.startbit % mapsize ≡ 0)
    × (0 < n.map)
    × (n.map < map_mod)
    × Chain (n.startbit + mapsize) rest

abbrev pub end_of : ℕ → List Node → ℕ
end_of high [] = high
end_of high (n ∷ rest) = end_of (n.startbit + mapsize) rest

pub record IsValid (e : Ebitmap) : Type 0 where
  pub chain : Chain 0 e.nodes
  pub top : e.highbit ≡ end_of 0 e.nodes
  pub fits : e.highbit < u32_mod

pub Chain-le : {lo hi : ℕ} (xs : List Node) → lo ≤ hi → Chain hi xs → Chain lo xs
Chain-le [] h c = tt
Chain-le (n ∷ xs) h c = (omega arith, c.1, c.2, c.3, c.4)

pub end_of-le : (lo : ℕ) (xs : List Node) → Chain lo xs → lo ≤ end_of lo xs
end_of-le lo [] c = omega arith
end_of-le lo (n ∷ xs) c = omega (arith, end_of-le (n.startbit + mapsize) xs c.4)

-- no bit below the first node, and none from the end on
pub get_nodes_below : (lo i : ℕ) (xs : List Node) → Chain lo xs → i < lo → get_nodes xs i ≡ false
unfolding get_nodes
get_nodes_below lo i [] c h = refl
get_nodes_below lo i (n ∷ xs) c h = ground arith

pub get_nodes_past :
    (lo i : ℕ) (xs : List Node) → Chain lo xs → end_of lo xs ≤ i → get_nodes xs i ≡ false
unfolding get_nodes
get_nodes_past lo i [] c h = refl
get_nodes_past lo i (n ∷ xs) c h =
    ground (
      arith,
      end_of-le (n.startbit + mapsize) xs c.4,
      get_nodes_past (n.startbit + mapsize) i xs c.4,
    )

-- the test of the high bit in `ebitmap_get_bit` changes nothing
pub get_bit-nodes : {e : Ebitmap} → IsValid e → (i : ℕ) → get_bit e i ≡ get_nodes e.nodes i
unfolding get_bit
get_bit-nodes {e} v i = ground (arith, get_nodes_past 0 i e.nodes v.chain)

pub last_highbit-end_of :
    (lo : ℕ) (xs : List Node)
    → Chain lo xs
    → end_of lo xs < u32_mod
    → last_highbit lo xs ≡ end_of lo xs
unfolding last_highbit
last_highbit-end_of lo [] c h = refl
last_highbit-end_of lo (n ∷ xs) c h =
    let step : (n.startbit + mapsize) % u32_mod ≡ n.startbit + mapsize =
      omega (arith, end_of-le (n.startbit + mapsize) xs c.4) in
    rw step (last_highbit-end_of (n.startbit + mapsize) xs c.4 h)

pub end_of_mono : (lo hi : ℕ) (xs : List Node) → lo ≤ hi → end_of lo xs ≤ end_of hi xs
end_of_mono lo hi [] h = h
end_of_mono lo hi (n ∷ xs) h = omega arith

-- the end of a list with a node does not depend on where it starts
pub end_of_start : (lo lo' : ℕ) (xs : List Node) → lo < end_of lo xs → end_of lo' xs ≡ end_of lo xs
end_of_start lo lo' [] h = absurd (omega arith)
end_of_start lo lo' (n ∷ xs) h = refl

cpy_nodes_lem : (xs : List Node) → cpy_nodes xs ≡ xs
unfolding cpy_nodes
cpy_nodes_lem [] = refl
cpy_nodes_lem (n ∷ xs) = rw (cpy_nodes_lem xs) refl

pub cpy_lem : (e : Ebitmap) → cpy e ≡ e
unfolding cpy
cpy_lem e = rw (cpy_nodes_lem e.nodes) refl
