-- ===== src/Symbols/Tests.antt =====
-- A category and a sensitivity written, and read into empty tables.
use ap_policy.Common.{◌+◌, ◌≡◌, refl, some, [], ◌∷◌, ◌++◌, arith, length}
use ap_policy.PolicyFile.{Target}
use ap_policy.PolicyFile.Words.{memory, target}
use ap_policy.Ebitmap.{ebitmap, node}
use ap_policy.Mls.{level}
use ap_policy.Hashtab.{create}
use ap_policy.Hashtab.Laws.{create-IsValid, search-create, nel-create}
use ap_policy.Hashtab.Symtab.{CString, sym_ops}
use ap_policy.Hashtab.Tests.{byte_order, byte_order_laws}
use ap_policy.Symbols.{CatDatum, LevelDatum, cat_read, cat_write, sens_read, sens_write}
use ap_policy.Symbols.Strings.{IsName}
use ap_policy.Symbols.Entries.{
  IsCat, IsSens, HasRoom, Entered, cat_read-cat_write, sens_read-sens_write,
}

abbrev c0 : CString
c0 = 99 ∷ 48 ∷ []

c0-IsName : IsName c0
c0-IsName = record {
  bytes = (omega arith, omega arith, (omega arith, omega arith, tt));
  some_byte = omega arith;
  length_fits = omega arith;
}

abbrev category : CatDatum
category = record { value = 1; isalias = 0 }

abbrev sensitivity : LevelDatum
sensitivity = record { level = level 2 (ebitmap (node 0 3 ∷ []) 64); isalias = 1 }

category-IsCat : IsCat category
category-IsCat = record { value_fits = omega arith; alias_fits = omega arith }

sensitivity-IsSens : IsSens sensitivity
sensitivity-IsSens = record {
  stored = record {
    sens_fits = omega arith;
    cat_valid = record {
      chain = (omega arith, refl, omega arith, omega arith, tt);
      top = refl;
      fits = omega arith;
    };
  };
  alias_fits = omega arith;
}

table-HasRoom : (D : Type 0) → HasRoom byte_order (create {D = D} 8) c0
table-HasRoom D = record {
  valid = create-IsValid (sym_ops byte_order) 8 (omega arith);
  absent = search-create (sym_ops byte_order) 8 c0;
  few = λ e. let none_in = nel-create CString D 8 in omega (arith, e, none_in);
}

cat_read-cat_write_example :
    (fp : Target) × (cat_write c0 category (target [] (12 + (2 + 5))) ≡ some fp)
    × (let r = cat_read byte_order (create 8) (memory (fp.out ++ (7 ∷ [])) (length fp.out + 1)) in
        Entered byte_order byte_order_laws
          (create 8)
          (record { key = c0; datum = category })
          (memory (7 ∷ []) 1)
          r.0
          r.1)
cat_read-cat_write_example =
    cat_read-cat_write byte_order byte_order_laws (create 8) c0 category (7 ∷ []) 5 1 c0-IsName
      category-IsCat (table-HasRoom CatDatum)

sens_read-sens_write_example :
    (fp : Target) × (sens_write c0 sensitivity (target [] (8 + (2 + (4 + (24 + 0))))) ≡ some fp)
    × (let r = sens_read byte_order (create 8) (memory (fp.out ++ (7 ∷ [])) (length fp.out + 1)) in
        Entered byte_order byte_order_laws
          (create 8)
          (record { key = c0; datum = sensitivity })
          (memory (7 ∷ []) 1)
          r.0
          r.1)
sens_read-sens_write_example =
    sens_read-sens_write byte_order byte_order_laws (create 8) c0 sensitivity (7 ∷ []) 0 1 c0-IsName
      sensitivity-IsSens (table-HasRoom LevelDatum)
