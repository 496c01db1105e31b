-- ===== src/Avtab/Tests.antt =====
-- A concrete table with rules in it.
use ap_policy.Common.Buckets.{chain_at}
use ap_policy.Common.{ℕ, ◌≤◌, ◌≡◌, ◌≢◌, refl, some, none, [], ◌∷◌, arith}
use ap_policy.Avtab.{Key, Datum, AvtabNode, Avtab, before, kinds, insert_nonunique}
use ap_policy.Avtab.Chain.{IsSorted}
use ap_policy.Avtab.Table.{IsValid}
use ap_policy.Avtab.Insertion.{Stored, insert_nonunique-Stored}
use ap_policy.Avtab.Alloc.{alloc, max_buckets}
use ap_policy.Avtab.Alloc.Laws.{alloc-IsValid}

abbrev rule : ℕ → ℕ → Key
rule source specified = record {
  source_type = source;
  target_type = 5;
  target_class = 2;
  specified = specified;
}

abbrev vector : ℕ → Datum
vector bits = record { data_bits = bits; xperms = none }

abbrev entry : ℕ → ℕ → AvtabNode
entry source bits = record { key = rule source 1; datum = vector bits }

abbrev blank : Avtab
blank = record { htable = []; nel = 0; nslot = 0; mask = 0 }

abbrev sixteen : ℕ
sixteen = 16

not_zero : sixteen ≢ 0
not_zero h = omega arith

abbrev rules : Avtab
rules = alloc blank sixteen

alloc-IsValid_example :
    IsValid (alloc blank sixteen)
    × ((alloc blank sixteen).nslot ≤ max_buckets)
    × ((i : ℕ) → chain_at i (alloc blank sixteen).htable ≡ [])
alloc-IsValid_example = alloc-IsValid blank sixteen not_zero

allow_kind : kinds (rule 3 1).specified ≢ 0
allow_kind h = omega arith

insert_nonunique-Stored_example :
    (h' : Avtab) × (insert_nonunique rules (rule 3 1) (vector 6) ≡ some h')
    × Stored rules (rule 3 1) (vector 6) h'
insert_nonunique-Stored_example =
    insert_nonunique-Stored rules (rule 3 1) (vector 6) (alloc-IsValid blank sixteen not_zero).0
      (omega arith) allow_kind

two_entries-IsSorted : IsSorted (entry 3 6 ∷ entry 4 7 ∷ [])
unfolding before
two_entries-IsSorted = ((refl, tt), (tt, tt))
