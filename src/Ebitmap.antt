-- ===== src/Ebitmap.antt =====
-- The extensible bitmap, libsepol/src/ebitmap.c and include/sepol/policydb/ebitmap.h: the set
-- operations. A linked list of nodes is a list; an operation that builds a bitmap returns it.
pub mod Tests
pub mod Maps
pub mod Shape
pub mod Window
pub mod Compare
pub mod Update
pub mod Range
pub mod Walk
pub mod Push
pub mod Intersection
pub mod Difference
pub mod Complement
pub mod Union
pub mod Binary
use ap_policy.Common.{
  ℕ, zero, suc, ◌+◌, ◌-◌, ◌/◌, ◌%◌, ◌^◌, bit_and, bit_or, bit_xor, Bool, true, false, List, [], ◌∷◌,
  ltb, leb, ◌==◌, if◌then◌else◌, Option, none, some,
}

-- MAPSIZE, the bits of a node's map, and the ranges of MAPTYPE and uint32_t
abbrev pub mapsize : ℕ
mapsize = 64

abbrev pub map_mod : ℕ
map_mod = 2 ^ 64

abbrev pub u32_mod : ℕ
u32_mod = 2 ^ 32

pub record Node : Type 0 where
  pub startbit : ℕ
  pub map : ℕ

abbrev pub node : ℕ → ℕ → Node
node startbit map = record { startbit = startbit; map = map }

pub record Ebitmap : Type 0 where
  pub nodes : List Node
  pub highbit : ℕ

abbrev pub ebitmap : List Node → ℕ → Ebitmap
ebitmap nodes highbit = record { nodes = nodes; highbit = highbit }

-- `ebitmap_init`, and what `ebitmap_destroy` leaves
abbrev pub init : Ebitmap
init = ebitmap [] 0

-- `map & (MAPBIT << k)`
abbrev pub has_bit : ℕ → ℕ → Bool
has_bit map k = if bit_and map (2 ^ k) == 0 then false else true

-- `ebitmap_cpy`, node by node
pub cpy_nodes : List Node → List Node
cpy_nodes [] = []
cpy_nodes (n ∷ rest) = node n.startbit n.map ∷ cpy_nodes rest

pub cpy : Ebitmap → Ebitmap
unfolding cpy_nodes
cpy src = ebitmap (cpy_nodes src.nodes) src.highbit

unfoldable pub get_nodes : List Node → ℕ → Bool
get_nodes [] bit = false
get_nodes (n ∷ rest) bit =
    if leb n.startbit bit
    then (if ltb bit (n.startbit + mapsize)
        then has_bit n.map (bit - n.startbit)
        else get_nodes rest bit)
    else false

unfoldable pub get_bit : Ebitmap → ℕ → Bool
unfolding get_nodes
get_bit e bit = if ltb e.highbit bit then false else get_nodes e.nodes bit

-- the loop of `ebitmap_or`
pub or_nodes : List Node → List Node → List Node
or_nodes [] [] = []
or_nodes [] (n2 ∷ r2) = node n2.startbit n2.map ∷ or_nodes [] r2
or_nodes (n1 ∷ r1) [] = node n1.startbit n1.map ∷ or_nodes r1 []
or_nodes (n1 ∷ r1) (n2 ∷ r2) = elim (n1.startbit == n2.startbit) [
  | true ↦ node n1.startbit (bit_or n1.map n2.map) ∷ or_nodes r1 r2
  | false ↦ elim (ltb n1.startbit n2.startbit) [
    | true ↦ node n1.startbit n1.map ∷ or_nodes r1 (n2 ∷ r2)
    | false ↦ node n2.startbit n2.map ∷ or_nodes (n1 ∷ r1) r2
  ]
]

pub or : Ebitmap → Ebitmap → Ebitmap
unfolding or_nodes
or e1 e2 =
    ebitmap (or_nodes e1.nodes e2.nodes)
      (if ltb e2.highbit e1.highbit then e1.highbit else e2.highbit)

-- `ebitmap_union(dst, e1)`: the new value of `dst`
pub union : Ebitmap → Ebitmap → Ebitmap
unfolding or
union dst e1 = let tmp = or dst e1 in ebitmap tmp.nodes tmp.highbit

-- `if (new) dst->highbit = new->startbit + MAPSIZE`, where `new` is the last node made
pub last_highbit : ℕ → List Node → ℕ
last_highbit high [] = high
last_highbit high (n ∷ rest) = last_highbit ((n.startbit + mapsize) % u32_mod) rest

-- the tail of a round of `ebitmap_and`, `ebitmap_xor` and `ebitmap_not`: a map of zeroes gets no node
abbrev pub push_nonzero : ℕ → ℕ → List Node → List Node
push_nonzero startbit map rest = if map == 0 then rest else node startbit map ∷ rest

-- the loop of `ebitmap_and`
pub and_nodes : List Node → List Node → List Node
and_nodes [] ys = []
and_nodes (n1 ∷ r1) [] = []
and_nodes (n1 ∷ r1) (n2 ∷ r2) = elim (n1.startbit == n2.startbit) [
  | true ↦ push_nonzero n1.startbit (bit_and n1.map n2.map) (and_nodes r1 r2)
  | false ↦ elim (ltb n2.startbit n1.startbit) [
    | true ↦ and_nodes (n1 ∷ r1) r2
    | false ↦ and_nodes r1 (n2 ∷ r2)
  ]
]

pub and : Ebitmap → Ebitmap → Ebitmap
unfolding and_nodes last_highbit
and e1 e2 = let made = and_nodes e1.nodes e2.nodes in ebitmap made (last_highbit 0 made)

-- the loop of `ebitmap_xor`
pub xor_nodes : List Node → List Node → List Node
xor_nodes [] [] = []
xor_nodes [] (n2 ∷ r2) = push_nonzero n2.startbit n2.map (xor_nodes [] r2)
xor_nodes (n1 ∷ r1) [] = push_nonzero n1.startbit n1.map (xor_nodes r1 [])
xor_nodes (n1 ∷ r1) (n2 ∷ r2) = elim (n1.startbit == n2.startbit) [
  | true ↦ push_nonzero n1.startbit (bit_xor n1.map n2.map) (xor_nodes r1 r2)
  | false ↦ elim (ltb n1.startbit n2.startbit) [
    | true ↦ push_nonzero n1.startbit n1.map (xor_nodes r1 (n2 ∷ r2))
    | false ↦ push_nonzero n2.startbit n2.map (xor_nodes (n1 ∷ r1) r2)
  ]
]

pub xor : Ebitmap → Ebitmap → Ebitmap
unfolding xor_nodes last_highbit
xor e1 e2 = let made = xor_nodes e1.nodes e2.nodes in ebitmap made (last_highbit 0 made)

-- One round of `ebitmap_not` at `cur`: the map before the cut at `maxbit`, and the nodes left.
pub not_round : ℕ → List Node → ℕ × List Node
not_round cur [] = (map_mod - 1, [])
not_round cur (n ∷ rest) =
    if n.startbit == cur then (map_mod - 1 - n.map, rest) else (map_mod - 1, n ∷ rest)

-- `if (maxbit - cur_startbit < MAPSIZE) map &= (1 << (maxbit - cur_startbit)) - 1`
abbrev pub cut_map : ℕ → ℕ → ℕ → ℕ
cut_map cur maxbit map =
    if ltb (maxbit - cur) mapsize then bit_and map (2 ^ (maxbit - cur) - 1) else map

-- the loop of `ebitmap_not`, whose counter is a uint32_t; `none` means that the fuel ran out
pub not_nodes : ℕ → ℕ → ℕ → List Node → Option (List Node)
unfolding not_round
not_nodes zero cur maxbit ns = none
not_nodes (suc fuel) cur maxbit ns =
    let (map, left) = not_round cur ns in
    elim (ltb cur maxbit) [
      | false ↦ some []
      | true ↦ elim (not_nodes fuel ((cur + mapsize) % u32_mod) maxbit left) [
        | none ↦ none
        | some made ↦ some (push_nonzero cur (cut_map cur maxbit map) made)
      ]
    ]

pub not : ℕ → Ebitmap → ℕ → Option Ebitmap
unfolding not_nodes last_highbit
not fuel e maxbit = elim (not_nodes fuel 0 maxbit e.nodes) [
  | none ↦ none
  | some made ↦ some (ebitmap made (last_highbit 0 made))
]

pub andnot : ℕ → Ebitmap → Ebitmap → ℕ → Option Ebitmap
unfolding not and
andnot fuel e1 e2 maxbit = elim (not fuel e2 maxbit) [ none ↦ none | some e3 ↦ some (and e1 e3) ]
