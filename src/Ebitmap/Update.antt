-- ===== src/Ebitmap/Update.antt =====
-- `ebitmap_set_bit`: one bit is written, a node made or dropped where needed.
pub mod Laws
use ap_policy.Common.{
  ℕ, ◌+◌, ◌-◌, ◌%◌, ◌^◌, Bool, true, false, Option, some, none, List, [], ◌∷◌, ltb, leb, ◌==◌,
  if◌then◌else◌, bit_and, bit_or,
}
use ap_policy.Common.Results.{Result, ok, err, einval}
use ap_policy.Ebitmap.{Node, node, Ebitmap, ebitmap, mapsize, map_mod, u32_mod}

-- `bit & ~(MAPSIZE - 1)`
abbrev pub start_of : ℕ → ℕ
start_of bit = bit - bit % mapsize

-- the high bit after the node behind `prev` is dropped, which `rest` follows
pub drop_high : Option Node → List Node → ℕ → ℕ
drop_high prev (n ∷ rest) high = high
drop_high none [] high = 0
drop_high (some p) [] high = (p.startbit + mapsize) % u32_mod

-- the node that holds the bit, rewritten: the new list from it on, and the new high bit
pub write_node : Option Node → Node → List Node → ℕ → ℕ → Bool → List Node × ℕ
unfolding drop_high
write_node prev n rest high bit true =
    (node n.startbit (bit_or n.map (2 ^ (bit - n.startbit))) ∷ rest, high)
write_node prev n rest high bit false =
    let map = bit_and n.map (map_mod - 1 - 2 ^ (bit - n.startbit)) in
    if map == 0 then (rest, drop_high prev rest high) else (node n.startbit map ∷ rest, high)

-- a node made for the bit in front of `rest`
pub make_node : List Node → ℕ → ℕ → Bool → List Node × ℕ
make_node rest high bit false = (rest, high)
make_node [] high bit true =
    (node (start_of bit) (2 ^ (bit - start_of bit)) ∷ [], (start_of bit + mapsize) % u32_mod)
make_node (n ∷ rest) high bit true =
    (node (start_of bit) (2 ^ (bit - start_of bit)) ∷ n ∷ rest, high)

-- the walk of `ebitmap_set_bit`, with the node behind it
pub set_nodes : Option Node → List Node → ℕ → ℕ → Bool → List Node × ℕ
unfolding write_node make_node
set_nodes prev [] high bit value = make_node [] high bit value
set_nodes prev (n ∷ rest) high bit value =
    if leb n.startbit bit
    then (if ltb bit (n.startbit + mapsize)
        then write_node prev n rest high bit value
        else (let (rest', high') = set_nodes (some n) rest high bit value in (n ∷ rest', high')))
    else make_node (n ∷ rest) high bit value

pub set_bit : Ebitmap → ℕ → Bool → Result Ebitmap
unfolding set_nodes
set_bit e bit value =
    if (start_of bit + mapsize) % u32_mod == 0
    then err einval
    else (let (nodes, high) = set_nodes none e.nodes e.highbit bit value in ok (ebitmap nodes high))
