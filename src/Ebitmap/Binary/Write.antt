-- ===== src/Ebitmap/Binary/Write.antt =====
-- The bytes that `ebitmap_write` puts.
use ap_policy.Common.{
  ℕ, ◌+◌, ◌*◌, ◌%◌, ◌≤◌, ◌<◌, ◌≡◌, refl, ◌∙◌, some, List, [], ◌∷◌, ◌++◌, arith, length,
  length-append,
}
use ap_policy.PolicyFile.{le_bytes}
use ap_policy.PolicyFile.Words.{length-le_bytes, target, put_there, append_assoc, append_nil}
use ap_policy.Ebitmap.{Node, Ebitmap, mapsize, u32_mod}
use ap_policy.Ebitmap.Shape.{Chain, end_of, IsValid}
use ap_policy.Ebitmap.Binary.{write_nodes, count_nodes, write}

-- the layout of the nodes and of the bitmap in a binary policy
abbrev pub node_bytes : List Node → List ℕ
node_bytes [] = []
node_bytes (n ∷ rest) = le_bytes 4 n.startbit ++ (le_bytes 8 n.map ++ node_bytes rest)

abbrev pub head_bytes : Ebitmap → List ℕ
head_bytes e = le_bytes 4 mapsize ++ (le_bytes 4 e.highbit ++ le_bytes 4 (length e.nodes))

pub length-head_bytes : (e : Ebitmap) → length (head_bytes e) ≡ 12
length-head_bytes e = omega (
  arith,
  length-append (le_bytes 4 mapsize) (le_bytes 4 e.highbit ++ le_bytes 4 (length e.nodes)),
  length-append (le_bytes 4 e.highbit) (le_bytes 4 (length e.nodes)),
  length-le_bytes 4 mapsize,
  length-le_bytes 4 e.highbit,
  length-le_bytes 4 (length e.nodes),
)

pub length-node_bytes : (ns : List Node) → length (node_bytes ns) ≡ 12 * length ns
length-node_bytes [] = refl
length-node_bytes (n ∷ ns) = omega (
  arith,
  length-append (le_bytes 4 n.startbit) (le_bytes 8 n.map ++ node_bytes ns),
  length-append (le_bytes 8 n.map) (node_bytes ns),
  length-le_bytes 4 n.startbit,
  length-le_bytes 8 n.map,
  length-node_bytes ns,
)

pub write_nodes-node_bytes :
    (ns : List Node) (out : List ℕ) (len room : ℕ)
    → len ≡ 12 * length ns + room
    → write_nodes ns (target out len) ≡ some (target (out ++ node_bytes ns) room)
unfolding write_nodes
write_nodes-node_bytes [] out len room e =
    let same : len ≡ room = omega (arith, e) in rw (same, ← append_nil out) refl
write_nodes-node_bytes (n ∷ ns) out len room e =
    let start = le_bytes 4 n.startbit in
    let bits = le_bytes 8 n.map in
    let put1 =
      put_there start out 4 1 len (8 + (12 * length ns + room)) (omega arith) (omega (arith, e)) in
    let put2 =
      put_there bits (out ++ start) 8 1 (8 + (12 * length ns + room)) (12 * length ns + room)
        (omega arith) (omega arith) in
    let rest =
      write_nodes-node_bytes ns ((out ++ start) ++ bits) (12 * length ns + room) room refl in
    let order : ((out ++ start) ++ bits) ++ node_bytes ns
        ≡ out ++ (start ++ (bits ++ node_bytes ns)) =
      append_assoc (out ++ start) bits (node_bytes ns)
      ∙ append_assoc out start (bits ++ node_bytes ns) in
    rw (write_nodes, put1, put2, rest, order) refl

-- a chain has no more nodes than its end allows
pub count_bound : (lo : ℕ) (ns : List Node) → Chain lo ns → lo + mapsize * length ns ≤ end_of lo ns
count_bound lo [] c = omega arith
count_bound lo (n ∷ ns) c = omega (arith, count_bound (n.startbit + mapsize) ns c.4)

count_nodes-length :
    (ns : List Node) (count : ℕ)
    → count + length ns < u32_mod
    → count_nodes count ns ≡ count + length ns
unfolding count_nodes
count_nodes-length [] count h = omega arith
count_nodes-length (n ∷ ns) count h =
    let fits : (count + 1) % u32_mod ≡ count + 1 = omega (arith, h) in
    rw fits (count_nodes-length ns (count + 1) (omega (arith, h)) ∙ (omega arith))

-- a well-formed bitmap written to memory with room for it
pub write-bytes :
    (e : Ebitmap) (out : List ℕ) (room : ℕ)
    → IsValid e
    → write e (target out (12 + (12 * length e.nodes + room)))
      ≡ some (target ((out ++ head_bytes e) ++ node_bytes e.nodes) room)
unfolding write
write-bytes e out room v =
    let number : count_nodes 0 e.nodes ≡ length e.nodes = omega (
      arith,
      count_nodes-length e.nodes 0 (omega (arith, count_bound 0 e.nodes v.chain, v.top, v.fits)),
    ) in
    let put =
      put_there (head_bytes e) out 4 3 (12 + (12 * length e.nodes + room))
        (12 * length e.nodes + room) (omega arith) (omega arith) in
    rw (write, number, put)
      (write_nodes-node_bytes e.nodes (out ++ head_bytes e) (12 * length e.nodes + room) room refl)
