-- ===== src/Sidtab/View/Assign.antt =====
-- `sepol_sidtab_context_to_sid` gives each context a SID of its own.
use ap_policy.Common.{
  ℕ, ◌+◌, ◌-◌, ◌%◌, ◌≤◌, ◌≡◌, ◌≢◌, ◌↔◌, ◌⊎◌, refl, sym, ap, ◌∙◌, true, false, some, none, arith,
  ◌==◌, ==_iff, ◌||◌, Bool-cases, Option-cases, inl, inr,
}
use ap_policy.Common.Buckets.{chain_at}
use ap_policy.Common.Results.{Result, ok, err, enomem, ok-injective}
use ap_policy.Mls.{Context}
use ap_policy.Sidtab.{Sidtab, hash, u32_mod, insert, search_chain, search_context, context_to_sid}
use ap_policy.Sidtab.Chain.{first_sid, search_chain-All}
use ap_policy.Sidtab.View.{
  IsValid, Placed, All-next, false-ne-true, Grown, insert-Grown, view, hash-lt,
}
use ap_policy.Sidtab.View.Scan.{search_context-Found, search_context-scan, scan-zero, scan-only}

-- the SID given to a context: it stands for the context from then on, every other SID stands for what
-- it stood for, and the next call for the context gives the same SID and changes nothing
pub record Assigned (s : Sidtab) (c : Context) (s' : Sidtab) (sid : ℕ) : Type 0 where
  pub valid : IsValid s'
  pub here : view s' sid ≡ some c
  pub kept : (k : ℕ) (old : Context) → view s k ≡ some old → view s' k ≡ some old
  pub again : context_to_sid s' c ≡ (s', ok sid)

-- no SID is left, or the table is shut down
abbrev pub Full : Sidtab → Type 0
Full s = (s.next_sid ≡ u32_mod - 1) ⊎ (s.shutdown ≡ true)

seen_again :
    (s : Sidtab) (c : Context) (sid : ℕ)
    → search_context s c ≡ sid
    → sid ≢ 0
    → context_to_sid s c ≡ (s, ok sid)
unfolding context_to_sid
seen_again s c sid h pos =
    let there : (search_context s c == 0) ≡ false = ground arith in rw (there, h) refl

-- SIDs from which the table allocates are not in it
view-next : (s : Sidtab) (k : ℕ) → IsValid s → s.next_sid ≤ k → view s k ≡ none
unfolding view
view-next s k v h = elim (Option-cases (search_chain k (chain_at (hash k) s.htable))) [
  | inl missing ↦ missing
  | inr (c, there) ↦
      let p =
        search_chain-All (Placed (hash k) s.next_sid) k c (chain_at (hash k) s.htable)
          (v.placed (hash k)) there in
      absurd (omega (arith, p.1))
]

-- the state in which the SID is taken
abbrev taken : Sidtab → Sidtab
taken s = record s { next_sid = (s.next_sid + 1) % u32_mod }

module _ (s : Sidtab) (c : Context) (v : IsValid s) (room : s.next_sid ≢ u32_mod - 1) where
  step : (s.next_sid + 1) % u32_mod ≡ s.next_sid + 1
  step = omega (arith, v.next_fits)

  taken-IsValid : IsValid (taken s)
  taken-IsValid = record {
    chains = v.chains;
    ascending = v.ascending;
    placed = λ i. All-next i s.next_sid _ (chain_at i s.htable) (omega (arith, step)) (v.placed i);
    next_pos = omega (arith, step);
    next_fits = omega (arith, v.next_fits);
  }

  view-taken : (k : ℕ) → view (taken s) k ≡ view s k
  unfolding view
  view-taken k = refl

  grow : (s' : Sidtab) × (insert (taken s) s.next_sid c ≡ ok s') × Grown (taken s) s.next_sid c s'
  grow =
      insert-Grown (taken s) s.next_sid c taken-IsValid v.next_pos (omega (arith, v.next_fits))
        (view-taken s.next_sid ∙ view-next s s.next_sid v (omega arith))

  -- the scan of the new table finds the new SID
  scan-Grown :
      (s' : Sidtab)
      → Grown (taken s) s.next_sid c s'
      → search_context s c ≡ 0
      → search_context s' c ≡ s.next_sid
  scan-Grown s' g h =
      let slot = hash s.next_sid in
      let missing = sym (search_context-scan s c v) ∙ h in
      search_context-scan s' c g.valid
      ∙ scan-only c s'.htable slot (omega (arith, hash-lt s.next_sid, g.valid.chains))
          (λ j other. ap (first_sid c) (g.others j other) ∙ scan-zero c s.htable j missing)
      ∙ g.own.scan (scan-zero c s.htable slot missing)

  old-ne-next : (k : ℕ) (old : Context) → view s k ≡ some old → (k == s.next_sid) ≡ false
  old-ne-next k old there = elim (Bool-cases (k == s.next_sid)) [
    | inr other ↦ other
    | inl same ↦
        let gone = view-next s k v (omega (arith, (==_iff k s.next_sid).0 same)) in
        let bad = sym gone ∙ there in cc
  ]

  -- the call where no scan finds the context
  fresh-Assigned :
      search_context s c ≡ 0
      → s.shutdown ≡ false
      → (s' : Sidtab) × (context_to_sid s c ≡ (s', ok s.next_sid)) × Assigned s c s' s.next_sid
  unfolding context_to_sid view
  fresh-Assigned missing open_table =
      let (s', run, g) = grow in
      let not_last : (s.next_sid == u32_mod - 1) ≡ false = ground arith in
      (
        s',
        rw (missing, not_last, open_table, context_to_sid, run) refl,
        record {
          valid = g.valid;
          here = g.added s.next_sid ∙ ground arith;
          kept = λ k old there. g.added k ∙ rw (old-ne-next k old there) there;
          again =
              seen_again s' c s.next_sid (scan-Grown s' g missing) (λ z. omega (arith, v.next_pos));
        },
      )

-- the three ways that a call can end
seen-Assigned :
    (s : Sidtab) (c : Context)
    → IsValid s
    → search_context s c ≢ 0
    → (context_to_sid s c ≡ (s, ok (search_context s c))) × Assigned s c s (search_context s c)
seen-Assigned s c v h =
    let again = seen_again s c (search_context s c) refl h in
    (
      again,
      record {
        valid = v;
        here = (search_context-Found s c v).hit h;
        kept = λ k old there. there;
        again = again;
      },
    )

Full-refused :
    (s : Sidtab) (c : Context)
    → search_context s c ≡ 0
    → Full s
    → context_to_sid s c ≡ (s, err enomem)
unfolding context_to_sid
Full-refused s c h full =
    let stop : (s.next_sid == u32_mod - 1 || s.shutdown) ≡ true = elim full [
      | inl last ↦ ground arith
      | inr down ↦ ground arith
    ] in
    rw (h, stop, context_to_sid) refl

-- On a valid table `sepol_sidtab_context_to_sid` ends in one of two ways. It returns a SID, which
-- stands for the context from then on, while every SID in use keeps its context, the table stays
-- valid, and the next call for the context returns the same SID and leaves the table as it is. Or it
-- returns -ENOMEM and leaves the table as it is: then no SID stands for the context, and the SIDs are
-- used up or the table is shut down.
pub context_to_sid-Assigned :
    (s : Sidtab) (c : Context)
    → IsValid s
    → ((s' : Sidtab) × (sid : ℕ) × (context_to_sid s c ≡ (s', ok sid)) × Assigned s c s' sid)
      ⊎ ((context_to_sid s c ≡ (s, err enomem)) × ((k : ℕ) → view s k ≢ some c) × Full s)
context_to_sid-Assigned s c v = elim (Bool-cases (search_context s c == 0)) [
  | inr there ↦
      let (run, a) = seen-Assigned s c v (λ z. false-ne-true (sym there ∙ (==_iff _ 0).1 z)) in
      inl (s, search_context s c, run, a)
  | inl gone ↦
      let missing : search_context s c ≡ 0 = (==_iff (search_context s c) 0).0 gone in
      let nowhere = (search_context-Found s c v).miss missing in
      elim (Bool-cases (s.next_sid == u32_mod - 1)) [
        | inl last ↦
            let full : Full s = inl ((==_iff s.next_sid (u32_mod - 1)).0 last) in
            inr (Full-refused s c missing full, nowhere, full)
        | inr room ↦ elim (Bool-cases s.shutdown) [
          | inl down ↦ inr (Full-refused s c missing (inr down), nowhere, inr down)
          | inr up ↦
              let (s', run, a) =
                fresh-Assigned s c v
                  (λ e. false-ne-true (sym room ∙ (==_iff s.next_sid (u32_mod - 1)).1 e)) missing
                  up in
              inl (s', s.next_sid, run, a)
        ]
      ]
]

pair-injective :
    {a b : Sidtab} {x y : ℕ} → ◌≡◌ {A = Sidtab × Result ℕ} (a, ok x) (b, ok y) → (a ≡ b) × (x ≡ y)
pair-injective h = (ap (λ p. p.0) h, ok-injective (ap (λ p. p.1) h))

pub returned-Assigned :
    (s s' : Sidtab) (c : Context) (sid : ℕ)
    → IsValid s
    → context_to_sid s c ≡ (s', ok sid)
    → Assigned s c s' sid
returned-Assigned s s' c sid v run = elim (context_to_sid-Assigned s c v) [
  | inl (made, id, run', a) ↦
      let (same, id_same) = pair-injective (sym run' ∙ run) in rw (← same, ← id_same) a
  | inr (run', gone, full) ↦ let bad = sym run' ∙ run in cc
]

-- In two calls of `sepol_sidtab_context_to_sid` on a valid table, one after the other, the SIDs
-- returned are equal exactly when the contexts are.
pub context_to_sid_distinct :
    (s s1 s2 : Sidtab) (c d : Context) (a b : ℕ)
    → IsValid s
    → context_to_sid s c ≡ (s1, ok a)
    → context_to_sid s1 d ≡ (s2, ok b)
    → (a ≡ b) ↔ (c ≡ d)
context_to_sid_distinct s s1 s2 c d a b v run1 run2 =
    let first = returned-Assigned s s1 c a v run1 in
    let second = returned-Assigned s1 s2 d b first.valid run2 in
    (
      λ e. let both = sym (second.kept a c first.here) ∙ ap (view s2) e ∙ second.here in cc,
      λ e. (pair-injective (sym first.again ∙ ap (context_to_sid s1) e ∙ run2)).1,
    )
