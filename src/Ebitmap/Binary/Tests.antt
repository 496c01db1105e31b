-- ===== src/Ebitmap/Binary/Tests.antt =====
-- A concrete bitmap written and read back.
use ap_policy.Common.{◌+◌, ◌≡◌, refl, some, [], ◌∷◌, ◌++◌, arith, length}
use ap_policy.Common.Results.{ok}
use ap_policy.PolicyFile.{Source, Target}
use ap_policy.PolicyFile.Words.{memory, target}
use ap_policy.Ebitmap.{Ebitmap, ebitmap, node}
use ap_policy.Ebitmap.Shape.{IsValid}
use ap_policy.Ebitmap.Binary.{Loaded, read, write}
use ap_policy.Ebitmap.Binary.Read.{read-IsValid}
use ap_policy.Ebitmap.Binary.RoundTrip.{read-write}

abbrev two_nodes : Ebitmap
two_nodes = ebitmap (node 0 5 ∷ node 128 1 ∷ []) 192

two_nodes-IsValid : IsValid two_nodes
two_nodes-IsValid = record {
  chain = (
    omega arith,
    refl,
    omega arith,
    omega arith,
    (omega arith, refl, omega arith, omega arith, tt),
  );
  top = refl;
  fits = omega arith;
}

read-write_example :
    (fp : Target) × (write two_nodes (target [] 40) ≡ some fp)
    × (read (memory (fp.out ++ (7 ∷ [])) (length fp.out + 1))
        ≡ ok (record { value = two_nodes; fp = memory (7 ∷ []) 1 }))
read-write_example = read-write two_nodes (7 ∷ []) 4 1 two_nodes-IsValid

abbrev loaded : Loaded Ebitmap
loaded = record { value = two_nodes; fp = memory (7 ∷ []) 1 }

abbrev written : Source
written =
    let fp = (read-write two_nodes (7 ∷ []) 4 1 two_nodes-IsValid).0 in
    memory (fp.out ++ (7 ∷ [])) (length fp.out + 1)

written_run : read written ≡ ok loaded
written_run = (read-write two_nodes (7 ∷ []) 4 1 two_nodes-IsValid).2

read-IsValid_example : IsValid loaded.value
read-IsValid_example = read-IsValid written loaded written_run
