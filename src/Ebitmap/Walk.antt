-- ===== src/Ebitmap/Walk.antt =====
-- The iteration over a bitmap: `ebitmap_start`, `ebitmap_next`, `ebitmap_node_get_bit`,
-- `ebitmap_for_each_positive_bit`, and `ebitmap_cardinality`, `ebitmap_hamming_distance` and
-- `ebitmap_highest_set_bit`.
pub mod Bits
pub mod Count
pub mod Highest
use ap_policy.Common.{
  ℕ, zero, suc, ◌+◌, ◌-◌, ◌/◌, ◌%◌, Bool, true, false, Option, some, none, List, [], ◌∷◌, ltb, ◌==◌,
  if◌then◌else◌,
}
use ap_policy.Ebitmap.{Node, Ebitmap, mapsize, u32_mod, has_bit, xor}
use ap_policy.Ebitmap.Compare.{cmp}

-- the macros `ebitmap_length` and `ebitmap_startbit`
pub length : Ebitmap → ℕ
length e = elim e.nodes [ [] ↦ 0 | n ∷ rest ↦ e.highbit ]

-- a cursor: the node that `*n` points to, what follows it, and the bit
pub record Cursor : Type 0 where
  pub here : Node
  pub rest : List Node
  pub bit : ℕ

abbrev pub cursor : Node → List Node → ℕ → Cursor
cursor here rest bit = record { here = here; rest = rest; bit = bit }

pub next : Node → List Node → ℕ → Cursor
next n [] bit = cursor n [] ((bit + 1) % u32_mod)
next n (m ∷ rest) bit =
    if bit == n.startbit + mapsize - 1
    then cursor m rest m.startbit
    else cursor n (m ∷ rest) ((bit + 1) % u32_mod)

pub node_get_bit : Node → ℕ → Bool
node_get_bit n bit = has_bit n.map (bit - n.startbit)

-- the bits for which the body of `ebitmap_for_each_positive_bit` runs, from a cursor on
pub for_each : ℕ → Cursor → ℕ → Option (List ℕ)
unfolding next node_get_bit
for_each zero c len = none
for_each (suc fuel) c len = elim (ltb c.bit len) [
  | false ↦ some []
  | true ↦ elim (for_each fuel (next c.here c.rest c.bit) len) [
    | none ↦ none
    | some out ↦ some (if node_get_bit c.here c.bit then c.bit ∷ out else out)
  ]
]

-- with `ebitmap_start`; an empty bitmap has length 0
pub for_each_positive_bit : ℕ → Ebitmap → Option (List ℕ)
unfolding for_each length
for_each_positive_bit fuel e = elim e.nodes [
  | [] ↦ some []
  | n ∷ rest ↦ for_each fuel (cursor n rest n.startbit) (length e)
]

-- `__builtin_popcountll`, the number of ones among `w` digits
pub popcount : ℕ → ℕ → ℕ
popcount zero map = 0
popcount (suc w) map = map % 2 + popcount w (map / 2)

pub cardinality_nodes : List Node → ℕ → ℕ
unfolding popcount
cardinality_nodes [] count = count
cardinality_nodes (n ∷ rest) count =
    cardinality_nodes rest ((count + popcount mapsize n.map) % u32_mod)

pub cardinality : Ebitmap → ℕ
unfolding cardinality_nodes
cardinality e = cardinality_nodes e.nodes 0

pub hamming_distance : Ebitmap → Ebitmap → ℕ
unfolding cardinality
hamming_distance e1 e2 = if cmp e1 e2 then 0 else cardinality (xor e1 e2)

-- `while (map >>= 1) pos++`, at most 63 rounds for a map of 64 bits
pub top_pos : ℕ → ℕ → ℕ → ℕ
top_pos zero map pos = pos
top_pos (suc rounds) map pos = elim (map / 2 == 0) [
  | true ↦ pos
  | false ↦ top_pos rounds (map / 2) (pos + 1)
]

-- the last node is reached by `while (n->next) n = n->next`
pub highest_nodes : Node → List Node → ℕ
unfolding top_pos
highest_nodes n [] = n.startbit + top_pos mapsize n.map 0
highest_nodes n (m ∷ rest) = highest_nodes m rest

pub highest_set_bit : Ebitmap → ℕ
unfolding highest_nodes
highest_set_bit e = elim e.nodes [ [] ↦ 0 | n ∷ rest ↦ highest_nodes n rest ]
