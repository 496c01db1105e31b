-- ===== src/Hashtab/Tests.antt =====
-- A concrete symbol table, with the order of the bytes for `strcmp`.
use ap_policy.Common.{
  ℕ, ◌+◌, ◌≡◌, ◌↔◌, refl, some, List, [], ◌∷◌, arith, ◌==◌, ltb, if◌then◌else◌, same, below, above,
  comparison,
}
use ap_policy.Hashtab.{
  Sign, less, equal, greater, KeyOps, KeyLaws, Entry, Hashtab, create, check_resize, insert, remove,
  search,
}
use ap_policy.Hashtab.Laws.{
  IsValid, create-IsValid, Resized, check_resize-Resized, Insertion, inserted, refused, full,
  insert-Insertion, Removal, remove-Removal,
}
use ap_policy.Hashtab.History.{insert_all, first_of, search-insert_all}
use ap_policy.Hashtab.Symtab.{CString, StrcmpLaws, sym_ops, symcmp, symtab-KeyLaws}

abbrev pub byte_order : CString → CString → Sign
byte_order [] [] = equal
byte_order [] (b ∷ bs) = less
byte_order (a ∷ xs) [] = greater
byte_order (a ∷ xs) (b ∷ bs) =
    let rest = byte_order xs bs in if a == b then rest else if ltb a b then less else greater

byte_order_self : (a : CString) → byte_order a a ≡ equal
byte_order_self [] = refl
byte_order_self (a ∷ xs) = ground (arith, byte_order_self xs)

byte_order_same : (a b : CString) → byte_order a b ≡ equal → a ≡ b
byte_order_same [] [] h = refl
byte_order_same [] (b ∷ bs) h = cc
byte_order_same (a ∷ xs) [] h = cc
byte_order_same (a ∷ xs) (b ∷ bs) h = elim (comparison a b) [
  | same t e ↦ let tail = byte_order_same xs bs (rw t at h) in cc
  | below f t u lt ↦ let bad = rw (f, t) at h in cc
  | above f t u gt ↦ let bad = rw (f, t) at h in cc
]

byte_order_swapped : (a b : CString) → (byte_order a b ≡ less) ↔ (byte_order b a ≡ greater)
byte_order_swapped [] [] = (λ h. cc, λ h. cc)
byte_order_swapped [] (b ∷ bs) = (λ h. refl, λ h. refl)
byte_order_swapped (a ∷ xs) [] = (λ h. cc, λ h. cc)
byte_order_swapped (a ∷ xs) (b ∷ bs) =
    (λ h. ground (arith, byte_order_swapped xs bs), λ h. ground (arith, byte_order_swapped xs bs))

byte_order_trans :
    (a b c : CString) → byte_order a b ≡ less → byte_order b c ≡ less → byte_order a c ≡ less
byte_order_trans [] [] [] h k = cc h
byte_order_trans [] (b ∷ bs) [] h k = cc k
byte_order_trans [] b (c ∷ cs) h k = refl
byte_order_trans (a ∷ xs) [] c h k = cc h
byte_order_trans (a ∷ xs) (b ∷ bs) [] h k = cc k
byte_order_trans (a ∷ xs) (b ∷ bs) (c ∷ cs) h k = ground (arith, byte_order_trans xs bs cs)

pub byte_order_laws : StrcmpLaws byte_order
byte_order_laws = record {
  same = λ a b. (byte_order_same a b, λ e. rw e (byte_order_self b));
  swapped = byte_order_swapped;
  trans = byte_order_trans;
}

abbrev user_t : CString
user_t = 117 ∷ 115 ∷ 101 ∷ 114 ∷ []

abbrev file_t : CString
file_t = 102 ∷ 105 ∷ 108 ∷ 101 ∷ []

abbrev entry : CString → ℕ → Entry CString ℕ
entry key datum = record { key = key; datum = datum }

abbrev names : List (Entry CString ℕ)
names = entry user_t 1 ∷ entry file_t 2 ∷ entry user_t 3 ∷ []

abbrev ops : KeyOps CString
ops = sym_ops byte_order

laws : KeyLaws ops
laws = symtab-KeyLaws byte_order byte_order_laws

abbrev fresh : Hashtab CString ℕ
fresh = create 1

fresh-IsValid : IsValid ops fresh
fresh-IsValid = create-IsValid ops 1 (omega arith)

abbrev held : Hashtab CString ℕ
held = (insert ops fresh user_t 1).0

search-insert_all_example : search ops (insert_all ops (create 1) names) user_t ≡ some 1
unfolding first_of symcmp
search-insert_all_example = search-insert_all ops laws 1 names user_t (omega arith) (omega arith)

insert-Insertion_example :
    Insertion ops laws fresh user_t 1 (insert ops fresh user_t 1).0 (insert ops fresh user_t 1).1
insert-Insertion_example = insert-Insertion ops laws fresh user_t 1 fresh-IsValid

held-IsValid : IsValid ops held
held-IsValid = elim (insert-Insertion ops laws fresh user_t 1 fresh-IsValid) [
  | inserted gone small c n r ↦ c.valid
  | refused there h small r e ↦ r.valid
  | full most e r ↦ rw e fresh-IsValid
]

-- the sum of the data that were removed
abbrev add_datum : ℕ → CString → ℕ → ℕ
add_datum total key datum = total + datum

remove-Removal_example :
    Removal ops laws held user_t
      (some add_datum)
      0
      (remove ops held user_t (some add_datum) 0).0
      (remove ops held user_t (some add_datum) 0).1
      (remove ops held user_t (some add_datum) 0).2
remove-Removal_example = remove-Removal ops laws held user_t (some add_datum) 0 held-IsValid

check_resize-Resized_example : Resized ops held (check_resize ops held)
check_resize-Resized_example = check_resize-Resized ops laws held held-IsValid
