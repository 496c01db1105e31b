-- ===== src/Hashtab/History.antt =====
-- A hash table after any sequence of insertions: what a search finds is the first datum given for the key.
use ap_policy.Common.{
  ℕ, ◌+◌, ◌-◌, ◌<◌, ◌≤◌, ◌≡◌, refl, sym, ap, ◌∙◌, Option, some, none, List, [], ◌∷◌, arith, length,
}
use ap_policy.Hashtab.{
  u32_mod, Sign, less, equal, greater, KeyOps, KeyLaws, Entry, Hashtab, create, search, insert,
}
use ap_policy.Hashtab.Chain.{at_equal, none-ne-some}
use ap_policy.Hashtab.Resize.{found_or, found_or-none}
use ap_policy.Hashtab.Laws.{
  IsValid, create-IsValid, search-create, inserted, refused, full, insert-Insertion,
}

fresh_found {ℓ} :
    {A : Type ℓ} (s : Sign) (x : Option A) (y : A)
    → (s ≡ equal → x ≡ none)
    → at_equal s (some y) x ≡ found_or x (at_equal s (some y) none)
fresh_found less none y h = refl
fresh_found less (some x) y h = refl
fresh_found equal none y h = refl
fresh_found equal (some x) y h = absurd (none-ne-some (sym (h refl)))
fresh_found greater none y h = refl
fresh_found greater (some x) y h = refl

held_found {ℓ} :
    {A : Type ℓ} (s : Sign) (x : Option A) (y t : A)
    → (s ≡ equal → x ≡ some t)
    → x ≡ found_or x (at_equal s (some y) none)
held_found less none y t h = refl
held_found equal none y t h = absurd (none-ne-some (h refl))
held_found greater none y t h = refl
held_found s (some x) y t h = refl

-- a search behind one entry and the rest, in the two orders of grouping
found_or_first {ℓ} :
    {A : Type ℓ} (x : Option A) (s : Sign) (y : A) (z : Option A)
    → found_or (found_or x (at_equal s (some y) none)) z ≡ found_or x (at_equal s (some y) z)
found_or_first none less y z = refl
found_or_first none equal y z = refl
found_or_first none greater y z = refl
found_or_first (some x) s y z = refl

module _ {K D : Type 0} (ops : KeyOps K) where
  -- the entries inserted one after the other, from a table
  pub insert_all : Hashtab K D → List (Entry K D) → Hashtab K D
  unfolding insert
  insert_all h [] = h
  insert_all h (e ∷ es) = insert_all (insert ops h e.key e.datum).0 es

  -- the datum of the first entry of a key
  unfoldable pub first_of : K → List (Entry K D) → Option D
  first_of key [] = none
  first_of key (e ∷ es) = at_equal (ops.keycmp key e.key) (some e.datum) (first_of key es)

  module _ (laws : KeyLaws ops) where
    record Step (h made : Hashtab K D) (e : Entry K D) : Type 0 where
      valid : IsValid ops made
      count : made.nel ≤ h.nel + 1
      found :
          (k : K)
          → search ops made k
            ≡ found_or (search ops h k) (at_equal (ops.keycmp k e.key) (some e.datum) none)

    insert-Step :
        (h : Hashtab K D) (e : Entry K D)
        → IsValid ops h
        → h.nel < u32_mod - 1
        → Step h (insert ops h e.key e.datum).0 e
    insert-Step h e v small = elim (insert-Insertion ops laws h e.key e.datum v) [
      | inserted gone n c count res ↦ record {
        valid = c.valid;
        count = omega (arith, count);
        found = λ k.
            c.found k
            ∙ fresh_found (ops.keycmp k e.key) (search ops h k) e.datum
                (λ q. rw ((laws.cmp_equal k e.key).0 q) gone);
      }
      | refused there held n r res ↦ record {
        valid = r.valid;
        count = omega (arith, r.count);
        found = λ k.
            r.same k
            ∙ held_found (ops.keycmp k e.key) (search ops h k) e.datum there
                (λ q. rw ((laws.cmp_equal k e.key).0 q) held);
      }
      | full most same res ↦ absurd (omega (arith, most, small))
    ]

    record History (h made : Hashtab K D) (es : List (Entry K D)) : Type 0 where
      valid : IsValid ops made
      count : made.nel ≤ h.nel + length es
      found : (k : K) → search ops made k ≡ found_or (search ops h k) (first_of k es)

    insert_all-History :
        (es : List (Entry K D)) (h : Hashtab K D)
        → IsValid ops h
        → h.nel + length es < u32_mod
        → History h (insert_all h es) es
    unfolding insert_all first_of
    insert_all-History [] h v small = record {
      valid = v;
      count = omega arith;
      found = λ k. sym (found_or-none (search ops h k));
    }
    insert_all-History (e ∷ es) h v small =
        let s = insert-Step h e v (omega (arith, small)) in
        let r =
          insert_all-History es (insert ops h e.key e.datum).0 s.valid
            (omega (arith, small, s.count)) in
        record {
          valid = r.valid;
          count = omega (arith, r.count, s.count);
          found = λ k.
              r.found k
              ∙ ap (λ x. found_or x (first_of k es)) (s.found k)
              ∙ found_or_first (search ops h k) (ops.keycmp k e.key) e.datum (first_of k es);
        }

    -- A table created with at least one slot, and fewer than 2^32 entries inserted one after the other,
    -- repeated keys included: a search then finds for each key the datum of the first entry that had it, and
    -- nothing for a key that no entry had, however often the slots were doubled on the way.
    pub search-insert_all :
        (size : ℕ) (es : List (Entry K D)) (key : K)
        → 0 < size
        → length es < u32_mod
        → search ops (insert_all (create size) es) key ≡ first_of key es
    unfolding create
    search-insert_all size es key pos small =
        let r =
          insert_all-History es (create size) (create-IsValid ops size pos)
            (omega (arith, small)) in
        r.found key ∙ ap (λ x. found_or x (first_of key es)) (search-create ops size key)
