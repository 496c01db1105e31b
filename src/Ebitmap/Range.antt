-- ===== src/Ebitmap/Range.antt =====
-- `ebitmap_init_range`: the bitmap of all bits from `minbit` to `maxbit`.
pub mod Laws
use ap_policy.Common.{
  ℕ, zero, suc, ◌+◌, ◌-◌, ◌*◌, ◌/◌, ◌%◌, ◌^◌, true, false, Option, some, none, List, [], ◌∷◌, ltb,
  leb, ◌==◌, if◌then◌else◌, ◌||◌, ◌&&◌,
}
use ap_policy.Common.Results.{Result, ok, err, einval, eoverflow}
use ap_policy.Ebitmap.{Node, node, Ebitmap, ebitmap, mapsize, map_mod, u32_mod}
use ap_policy.Ebitmap.Update.{start_of}

-- the map of the node at `startbit`, with the shifts of the source
pub range_map : ℕ → ℕ → ℕ → ℕ
range_map startbit minbit maxbit =
    if startbit == start_of minbit
    then (if startbit == start_of maxbit
        then (map_mod - 1)
          / 2 ^ (mapsize - (maxbit - minbit + 1))
          * 2 ^ (minbit - startbit)
          % map_mod
        else (map_mod - 1) * 2 ^ (minbit - startbit) % map_mod)
    else (if startbit == start_of maxbit
        then (map_mod - 1) / 2 ^ (mapsize - (maxbit - startbit + 1))
        else map_mod - 1)

-- the loop, whose counter is a uint32_t; `none` means that the fuel ran out
pub range_nodes : ℕ → ℕ → ℕ → ℕ → Option (List Node)
unfolding range_map
range_nodes zero startbit minbit maxbit = none
range_nodes (suc fuel) startbit minbit maxbit = elim (leb startbit (start_of maxbit)) [
  | false ↦ some []
  | true ↦ elim (range_nodes fuel ((startbit + mapsize) % u32_mod) minbit maxbit) [
    | none ↦ none
    | some made ↦ some (node startbit (range_map startbit minbit maxbit) ∷ made)
  ]
]

pub init_range : ℕ → ℕ → ℕ → Option (Result Ebitmap)
unfolding range_nodes
init_range fuel minbit maxbit =
    if ltb maxbit minbit
    then some (err einval)
    else (if (start_of minbit + mapsize) % u32_mod == 0
          || (start_of maxbit + mapsize) % u32_mod == 0
        then some (err eoverflow)
        else elim (range_nodes fuel (start_of minbit) minbit maxbit) [
          | none ↦ none
          | some made ↦ some (ok (ebitmap made ((start_of maxbit + mapsize) % u32_mod)))
        ])
