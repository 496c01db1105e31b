-- ===== src/Optimize/TypeMap.antt =====
-- `build_type_map`: every type with a type or attribute has the attributes that its vector names.
use ap_policy.Common.{
  ℕ, Bool, not, if◌then◌else◌, zero, suc, ◌+◌, ◌^◌, ◌<◌, ◌≡◌, refl, sym, ap, subst, ◌∙◌, true,
  false, some, List, [], ◌∷◌, arith, ◌==◌, ◌&&◌, Bool-cases, inl, inr,
}
use ap_policy.Ebitmap.{Ebitmap, init, get_bit, get_nodes}
use ap_policy.Ebitmap.Shape.{IsValid}
use ap_policy.Ebitmap.Compare.{contains}
use ap_policy.Ebitmap.Compare.Subset.{contains_iff}
use ap_policy.Ebitmap.Walk.Bits.{occurs, for_each_positive_bit-bits}
use ap_policy.Optimize.{Types, supersets, type_vec_of, build_rounds, build_type_map, types_at}
use ap_policy.Optimize.Covering.{Includes}
use ap_policy.Optimize.Walks.{ListAll}
use ap_policy.Security.TypeRules.{attribute_bits}

-- the index is that of a type, not of an attribute
unfoldable pub is_type : Types → ℕ → Bool
is_type ts v = ts.present v && not (ts.is_attrib v)

-- The maps of a policy agree on its types: a type has no other type in its set, an attribute is in the set
-- exactly when the type is one of the attribute's, and these numbers fit a uint16_t. An attribute
-- may stand in its own set.
pub record IsCoherent (ts : Types) (attrs : ℕ → Ebitmap) : Type 0 where
  pub by_index : (i : ℕ) → attrs (suc i) ≡ ts.type_attr_map i
  pub sets : (i : ℕ) → IsValid (ts.type_attr_map i)
  pub members : (a : ℕ) → IsValid (ts.attr_type_map a)
  pub own :
      (v i : ℕ)
      → is_type ts v ≡ true
      → is_type ts i ≡ true
      → get_bit (attrs (suc v)) i ≡ true
      → v ≡ i
  pub dual :
      (v a : ℕ)
      → is_type ts v ≡ true
      → ts.present a ≡ true
      → ts.is_attrib a ≡ true
      → get_bit (attrs (suc v)) a ≡ get_bit (ts.attr_type_map a) v
  pub small : (v i : ℕ) → is_type ts v ≡ true → get_bit (attrs (suc v)) i ≡ true → i + 1 < 2 ^ 16

-- the sets of the types; the values that are no types of contexts have none here
pub types_only : Types → (ℕ → Ebitmap) → ℕ → Ebitmap
types_only ts attrs zero = init
types_only ts attrs (suc v) = if is_type ts v then attrs (suc v) else init

init-get_bit : (i : ℕ) → get_bit init i ≡ false
unfolding get_bit get_nodes
init-get_bit i = ground arith

pub types_only-same :
    (ts : Types) (attrs : ℕ → Ebitmap) (v : ℕ)
    → is_type ts v ≡ true
    → types_only ts attrs (suc v) ≡ attrs (suc v)
unfolding types_only
types_only-same ts attrs v h = rw h refl

-- a set with a bit is that of a type
types_only-type :
    (ts : Types) (attrs : ℕ → Ebitmap) (v i : ℕ)
    → get_bit (types_only ts attrs (suc v)) i ≡ true
    → (is_type ts v ≡ true) × (get_bit (attrs (suc v)) i ≡ true)
unfolding types_only
types_only-type ts attrs v i b = elim (Bool-cases (is_type ts v)) [
  | inl here ↦ (here, rw (types_only, here) at b)
  | inr other ↦ cc (rw (types_only, other) at b, init-get_bit i)
]

module _ (ts : Types) (attrs : ℕ → Ebitmap) (c : IsCoherent ts attrs) where
  abbrev masked : ℕ → Ebitmap
  masked = types_only ts attrs

  pub types_only-small : (v i : ℕ) → get_bit (masked v) i ≡ true → i + 1 < 2 ^ 16
  unfolding types_only
  types_only-small zero i b = cc (b, init-get_bit i)
  types_only-small (suc v) i b = let (t, b') = types_only-type ts attrs v i b in c.small v i t b'

  -- from a set of the type to the set that stands for it
  lift :
      (a st : ℕ)
      → ((v : ℕ)
          → is_type ts v ≡ true
          → get_bit (attrs (suc v)) a ≡ true
          → get_bit (attrs (suc v)) st ≡ true)
      → Includes masked a st
  lift a st f v b =
      let (t, b') = types_only-type ts attrs v a b in
      ap (λ m. get_bit m st) (types_only-same ts attrs v t) ∙ f v t b'

  supersets-Includes :
      (i rounds k : ℕ)
      → ts.present i ≡ true
      → ts.is_attrib i ≡ true
      → ListAll (Includes masked i) (supersets ts i rounds k)
  unfolding supersets
  supersets-Includes i zero k there attribute = tt
  supersets-Includes i (suc rounds) k there attribute =
      let rest = supersets-Includes i rounds (k + 1) there attribute in
      elim (Bool-cases
        (ts.present k && (ts.is_attrib k && contains (ts.attr_type_map k) (ts.attr_type_map i)))) [
          | inr out ↦ rw (supersets, out) rest
          | inl in_set ↦
              let k_there : ts.present k ≡ true = ground arith in
              let k_attribute : ts.is_attrib k ≡ true = ground arith in
              let holds : contains (ts.attr_type_map k) (ts.attr_type_map i) ≡ true =
                ground arith in
              let sub =
                (contains_iff (ts.attr_type_map k) (ts.attr_type_map i) (c.members k)
                    (c.members i)).0
                  holds in
              rw (supersets, in_set)
                (
                  lift i k (λ v t b.
                      c.dual v k t k_there k_attribute
                      ∙ sub v (sym (c.dual v i t there attribute) ∙ b)),
                  rest,
                )
        ]

  -- all visited bits, one after the other
  all-occurs : (P : ℕ → Type 0) (xs : List ℕ) → ((i : ℕ) → occurs i xs ≡ true → P i) → ListAll P xs
  all-occurs P [] f = tt
  all-occurs P (x ∷ xs) f =
      let self : (x == x) ≡ true = ground arith in
      (f x (rw self refl), all-occurs P xs (λ i o. f i (ground (arith, o))))

  pub type_vec_of-Includes :
      (i : ℕ) → (v : List ℕ) × (type_vec_of ts i ≡ some v) × ListAll (Includes masked i) v
  unfolding type_vec_of attribute_bits
  type_vec_of-Includes i = elim (Bool-cases (ts.present i)) [
    | inr absent ↦ ([], rw (absent) refl, tt)
    | inl there ↦ elim (Bool-cases (ts.is_attrib i)) [
      | inl attribute ↦ (
        supersets ts i ts.nprim 0,
        rw (there, attribute) refl,
        supersets-Includes i ts.nprim 0 there attribute,
      )
      | inr concrete ↦
          let set = ts.type_attr_map i in
          let (out, run, _, bits) =
            for_each_positive_bit-bits (suc set.highbit) set (c.sets i) (omega arith) in
          (
            out,
            rw (there, concrete, run) refl,
            all-occurs (Includes masked i) out (λ st o. lift i st (λ v t b.
                let i_type : is_type ts i ≡ true = unfold is_type in ground arith in
                let e : v ≡ i = c.own v i t i_type b in
                let own_set : attrs (suc v) ≡ set = ap (λ n. attrs (suc n)) e ∙ c.by_index i in
                ap (λ m. get_bit m st) own_set ∙ sym (bits st) ∙ o)),
          )
    ]
  ]

  build_rounds-Includes :
      (rounds i : ℕ)
      → (type_map : List (List ℕ)) × (build_rounds ts rounds i ≡ some type_map)
        × ((a : ℕ) → ListAll (Includes masked (i + a)) (types_at type_map a))
  unfolding build_rounds types_at
  build_rounds-Includes zero i = ([], refl, λ a. tt)
  build_rounds-Includes (suc rounds) i =
      let (v, run, all) = type_vec_of-Includes i in
      let (vs, runs, alls) = build_rounds-Includes rounds (i + 1) in
      (v ∷ vs, rw (build_rounds, run, runs) refl, lookup i v vs all alls)
    where
      lookup :
          (i : ℕ) (v : List ℕ) (vs : List (List ℕ))
          → ListAll (Includes masked i) v
          → ((a : ℕ) → ListAll (Includes masked ((i + 1) + a)) (types_at vs a))
          → (a : ℕ) → ListAll (Includes masked (i + a)) (types_at (v ∷ vs) a)
      lookup i v vs all alls zero =
          let e : i + 0 ≡ i = omega arith in subst (λ n. ListAll (Includes masked n) v) (sym e) all
      lookup i v vs all alls (suc a) =
          let e : (i + 1) + a ≡ i + suc a = omega arith in
          subst (λ n. ListAll (Includes masked n) (types_at vs a)) e (alls a)

  pub build_type_map-Includes :
      (type_map : List (List ℕ)) × (build_type_map ts ≡ some type_map)
      × ((a : ℕ) → ListAll (Includes masked a) (types_at type_map a))
  unfolding build_type_map
  build_type_map-Includes =
      let (type_map, run, all) = build_rounds-Includes ts.nprim 0 in
      (
        type_map,
        run,
        λ a.
            let e : 0 + a ≡ a = omega arith in
            subst (λ n. ListAll (Includes masked n) (types_at type_map a)) e (all a),
      )
