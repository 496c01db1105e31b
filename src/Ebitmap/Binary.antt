-- ===== src/Ebitmap/Binary.antt =====
-- The bitmap in a binary policy: `ebitmap_read` of libsepol/src/ebitmap.c and `ebitmap_write` of
-- libsepol/src/write.c.
pub mod Read
pub mod Write
pub mod RoundTrip
mod Tests
use ap_policy.Common.{
  ℕ, zero, suc, ◌+◌, ◌-◌, ◌%◌, ◌^◌, Bool, true, false, Option, some, none, List, [], ◌∷◌, ◌++◌, ltb,
  leb, ◌==◌, not, if◌then◌else◌, bit_and,
}
use ap_policy.Common.Results.{Result, ok, err, einval, ◌>>=◌}
use ap_policy.PolicyFile.{
  le_bytes, le_word, taken, behind, Source, Taken, next_entry, Target, Put, put_entry,
}
use ap_policy.Ebitmap.{Node, node, Ebitmap, ebitmap, mapsize, u32_mod, init}

-- what is read, and the file behind it; after an error the position of the file is not kept
pub record Loaded (A : Type 0) : Type 0 where
  pub value : A
  pub fp : Source

-- a message and -EINVAL when the test finds a fault, or the rest of the reading
abbrev pub refuse_if : {A : Type 0} → Bool → Result A → Result A
refuse_if true rest = err einval
refuse_if false rest = rest

-- `n->startbit <= l->startbit`, when there is a last node
abbrev pub not_after : Option ℕ → ℕ → Bool
not_after none startbit = false
not_after (some last) startbit = leb startbit last

-- one node of the bitmap
pub read_node : ℕ → Option ℕ → Source → Result (Loaded Node)
read_node highbit last fp = next_entry fp 4 >>= λ t.
    let startbit = le_word t.buf in
    refuse_if (not (bit_and startbit (mapsize - 1) == 0)) (
      refuse_if (ltb (highbit - mapsize) startbit) (
        next_entry t.fp 8 >>= λ u.
        let map = le_word u.buf in
        refuse_if (map == 0) (
          refuse_if (not_after last startbit)
            (ok (record { value = node startbit map; fp = u.fp })))))

-- the nodes, and the start of the last one
pub record Nodes : Type 0 where
  pub nodes : List Node
  pub last : Option ℕ

pub read_nodes : ℕ → ℕ → Option ℕ → Source → Result (Loaded Nodes)
unfolding read_node
read_nodes zero highbit last fp =
    ok (record { value = record { nodes = []; last = last }; fp = fp })
read_nodes (suc count) highbit last fp = read_node highbit last fp >>= λ n.
    read_nodes count highbit (some n.value.startbit) n.fp >>= λ r.
    ok (record {
      value = record { nodes = n.value ∷ r.value.nodes; last = r.value.last };
      fp = r.fp;
    })

-- `l->startbit + MAPSIZE != e->highbit`, when there is a last node
abbrev pub wrong_end : Option ℕ → ℕ → Bool
wrong_end none highbit = false
wrong_end (some last) highbit = not (last + mapsize == highbit)

-- `ebitmap_read` behind the test of the map size
pub read_body : ℕ → ℕ → Source → Result (Loaded Ebitmap)
unfolding read_nodes
read_body highbit count fp =
    if highbit == 0
    then ok (record { value = init; fp = fp })
    else refuse_if (not (bit_and highbit (mapsize - 1) == 0)) (
        refuse_if (count == 0) (
          read_nodes count highbit none fp >>= λ r.
          refuse_if (wrong_end r.value.last highbit)
            (ok (record { value = ebitmap r.value.nodes highbit; fp = r.fp }))))

pub read : Source → Result (Loaded Ebitmap)
unfolding read_body
read fp = next_entry fp 12 >>= λ t.
    let map_size = le_word (taken 4 t.buf) in
    let highbit = le_word (taken 4 (behind 4 t.buf)) in
    let count = le_word (taken 4 (behind 8 t.buf)) in
    refuse_if (not (map_size == mapsize)) (read_body highbit count t.fp)

-- `none` is POLICYDB_ERROR
pub write_nodes : List Node → Target → Option Target
write_nodes [] fp = some fp
write_nodes (n ∷ rest) fp =
    let start = put_entry (le_bytes 4 n.startbit) 4 1 fp in
    let bits = put_entry (le_bytes 8 n.map) 8 1 start.fp in
    let written = write_nodes rest bits.fp in
    if not (start.items == 1) then none else if not (bits.items == 1) then none else written

-- `count++` for each node
pub count_nodes : ℕ → List Node → ℕ
count_nodes count [] = count
count_nodes count (n ∷ rest) = count_nodes ((count + 1) % u32_mod) rest

pub write : Ebitmap → Target → Option Target
unfolding write_nodes count_nodes
write e fp =
    let head =
      put_entry (le_bytes 4 mapsize ++ (le_bytes 4 e.highbit ++ le_bytes 4 (count_nodes 0 e.nodes)))
        4 3 fp in
    if not (head.items == 3) then none else write_nodes e.nodes head.fp
