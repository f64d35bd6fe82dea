-- ===== src/Migrations/ApplyLaws.antt =====
-- internal/migrate/migrate.go: Apply after Apply, and Apply against Pending.
use mathlib.Core.Path.{subst}
use holibrary_backend.Prelude.{
  ℕ, ◌≡◌, refl, sym, ap, ◌∙◌, Bool, true, false, Option, none, some, List, [], ◌∷◌, ◌++◌, map, ok,
  Result-cases, text_eq, text_eq_refl, eq-of-text_eq, Bool-cases, Option-cases, inl, inr, arith,
  select_where, sort_by, insert_by, ◌⊎◌,
}
use holibrary_backend.Migrations.Apply.{
  Migration, Entry, LedgerRow, Store, Report, Failure, changed, is_seed, lookup, skips, apply_one,
  apply_each, apply, load, migration_of, pending_names, is_script, name_before, prepend, stopped,
  not_run,
}
use holibrary_backend.Migrations.Lookups.{
  Keeps, SkipsAlike, apply_one-Keeps, apply_one-SkipsAlike, apply_one-lookup, Keeps-trans,
  SkipsAlike-trans,
}

-- The files whose name says so are the seeds.
unfoldable pub AllNamed : List Migration → Type 0
AllNamed [] = Unit
AllNamed (m ∷ ms) = (m.seed ≡ is_seed m.name) × AllNamed ms

insert-AllNamed :
    (m : Migration) (ms : List Migration)
    → m.seed ≡ is_seed m.name
    → AllNamed ms
    → AllNamed (insert_by name_before m ms)
unfolding AllNamed insert_by
insert-AllNamed m [] e h = (e, tt)
insert-AllNamed m (n ∷ ms) e h = elim (Bool-cases (name_before n m)) [
  | inl t ↦ rw (t, insert_by) (h.0, insert-AllNamed m ms e h.1)
  | inr f ↦ rw (f, insert_by) (e, h)
]

pub load-AllNamed : (sum : List ℕ → List ℕ) (entries : List Entry) → AllNamed (load sum entries)
unfolding AllNamed load select_where sort_by migration_of
load-AllNamed sum [] = tt
load-AllNamed sum (e ∷ entries) = elim (Bool-cases (is_script e)) [
  | inl t ↦
      rw (t, load, select_where)
        (insert-AllNamed (migration_of sum e) (load sum entries) refl (load-AllNamed sum entries))
  | inr f ↦ rw (f, load, select_where) (load-AllNamed sum entries)
]

-- What the ledger says of a migration that Apply has nothing to do with.
unfoldable pub IsSettled : Bool → List LedgerRow → Migration → Type 0
IsSettled include_seeds ledger m =
    (lookup m.name ledger ≡ some m.checksum)
    ⊎ ((lookup m.name ledger ≡ none) × (skips include_seeds m ≡ true))

AllSettled : Bool → List LedgerRow → List Migration → Type 0
AllSettled include_seeds ledger [] = Unit
AllSettled include_seeds ledger (m ∷ ms) =
    IsSettled include_seeds ledger m × AllSettled include_seeds ledger ms

module _ {S : Type 0} (exec : List ℕ → S → Option S) where
  -- What a loop that did not fail leaves, from a ledger that has grown since it was read.
  IsDone : Bool → List Migration → Store S → Store S → Type 0
  IsDone seeds ms s t =
      AllSettled seeds t.ledger ms × Keeps s.ledger t.ledger × SkipsAlike seeds s.ledger t.ledger

  -- The first migration is passed over, is run, or ends the loop.
  pub apply_each-cases :
      (seeds : Bool) (applied : List LedgerRow) (m : Migration) (ms : List Migration) (s : Store S)
      → (IsSettled seeds applied m
          × (apply_each exec seeds applied (m ∷ ms) s ≡ apply_each exec seeds applied ms s))
        ⊎ ((t : Store S) × (lookup m.name applied ≡ none)
            × (skips seeds m ≡ false)
            × (apply_one exec m s ≡ ok t)
            × (apply_each exec seeds applied (m ∷ ms) s ≡ (
              prepend m.name (apply_each exec seeds applied ms t).0,
              (apply_each exec seeds applied ms t).1,
            )))
        ⊎ ((f : Failure) × (apply_each exec seeds applied (m ∷ ms) s ≡ (stopped f, s)))
  unfolding IsSettled apply_each
  apply_each-cases seeds applied m ms s = elim (Option-cases (lookup m.name applied)) [
    | inl l ↦ elim (Bool-cases (skips seeds m)) [
      | inl t ↦ inl (inr (l, t), rw (l, t, apply_each))
      | inr f ↦ elim (Result-cases (apply_one exec m s)) [
        | inl (x, h) ↦ inr (inr (x, rw (l, f, h, apply_each)))
        | inr (t, h) ↦ inr (inl (t, l, f, h, rw (l, f, h, apply_each)))
      ]
    ]
    | inr (sum, l) ↦ elim (Bool-cases (text_eq sum m.checksum)) [
      | inl t ↦ inl (inl (l ∙ ap some (eq-of-text_eq sum m.checksum t)), rw (l, t, apply_each))
      | inr f ↦ inr (inr (changed m.name, rw (l, f, apply_each)))
    ]
  ]

  IsSettled-after :
      (seeds : Bool) (old new : List LedgerRow) (m : Migration)
      → m.seed ≡ is_seed m.name
      → Keeps old new
      → SkipsAlike seeds old new
      → IsSettled seeds old m
      → IsSettled seeds new m
  unfolding IsSettled Keeps SkipsAlike
  IsSettled-after seeds old new m e k a (inl h) = inl (k m.name m.checksum h)
  IsSettled-after seeds old new m e k a (inr (h, t)) = inr (a m.name (rw (← e) t) ∙ h, t)

  kept-IsSettled :
      (seeds : Bool) (old new : List LedgerRow) (m : Migration)
      → Keeps old new
      → lookup m.name old ≡ some m.checksum
      → IsSettled seeds new m
  unfolding IsSettled Keeps
  kept-IsSettled seeds old new m k e = inl (k m.name m.checksum e)

  apply_each-IsDone :
      (seeds : Bool) (applied : List LedgerRow) (ms : List Migration) (s : Store S)
      → AllNamed ms
      → Keeps applied s.ledger
      → SkipsAlike seeds applied s.ledger
      → (apply_each exec seeds applied ms s).0.failure ≡ none
      → IsDone seeds ms s (apply_each exec seeds applied ms s).1
  unfolding AllNamed AllSettled IsDone
  apply_each-IsDone seeds applied [] s _ k a e =
      unfold apply_each in (tt, unfold Keeps in (λ n sum h. h), unfold SkipsAlike in (λ n h. refl))
  apply_each-IsDone seeds applied (m ∷ ms) s n k a e =
      elim (apply_each-cases seeds applied m ms s) [
        | inl (h, q) ↦
            let (done, kept, alike) = apply_each-IsDone seeds applied ms s n.1 k a (rw q at e) in
            let old =
              IsSettled-after seeds s.ledger (apply_each exec seeds applied ms s).1.ledger m n.0
                kept alike (IsSettled-after seeds applied s.ledger m n.0 k a h) in
            subst (λ (x : Report × Store S). IsDone seeds (m ∷ ms) s x.1) (sym q)
              ((old, done), kept, alike)
        | inr (inl (t, l, f, h, q)) ↦
            let k1 = apply_one-Keeps exec m s t h in
            let a1 = apply_one-SkipsAlike exec seeds m s t n.0 f h in
            let (done, kept, alike) =
              apply_each-IsDone seeds applied ms t n.1 (Keeps-trans applied s.ledger t.ledger k k1)
                (SkipsAlike-trans seeds applied s.ledger t.ledger a a1) (rw q at e) in
            let new : IsSettled seeds (apply_each exec seeds applied ms t).1.ledger m =
              kept-IsSettled seeds t.ledger (apply_each exec seeds applied ms t).1.ledger m kept
                (apply_one-lookup exec m s t h) in
            subst (λ (x : Report × Store S). IsDone seeds (m ∷ ms) s x.1) (sym q)
              (
                (new, done),
                Keeps-trans s.ledger t.ledger (apply_each exec seeds applied ms t).1.ledger k1 kept,
                SkipsAlike-trans seeds s.ledger t.ledger
                    (apply_each exec seeds applied ms t).1.ledger a1 alike,
              )
        | inr (inr (f, q)) ↦ absurd (ground (arith, q))
      ]

  -- A loop over what is settled does nothing.
  apply_each-settled :
      (seeds : Bool) (applied : List LedgerRow) (ms : List Migration) (s : Store S)
      → AllSettled seeds applied ms
      → apply_each exec seeds applied ms s ≡ (record { ran = []; failure = none }, s)
  unfolding AllSettled IsSettled apply_each
  apply_each-settled seeds applied [] s h = refl
  apply_each-settled seeds applied (m ∷ ms) s (inl e, hs) =
      rw (e, text_eq_refl m.checksum, apply_each) (apply_each-settled seeds applied ms s hs)
  apply_each-settled seeds applied (m ∷ ms) s (inr (l, t), hs) =
      rw (l, t, apply_each) (apply_each-settled seeds applied ms s hs)

  -- After an Apply that did not fail, on whatever ledger and with or without the seeds, a second
  -- Apply of the same files runs nothing, does not fail, and leaves the database as it is.
  pub apply_twice :
      (sum : List ℕ → List ℕ) (entries : List Entry) (seeds : Bool) (s : Store S)
      → (apply exec seeds (load sum entries) s).0.failure ≡ none
      → apply exec seeds (load sum entries) (apply exec seeds (load sum entries) s).1
        ≡ (record { ran = []; failure = none }, (apply exec seeds (load sum entries) s).1)
  unfolding apply IsDone
  apply_twice sum entries seeds s e =
      let (done, _, _) =
        apply_each-IsDone seeds s.ledger (load sum entries) s (load-AllNamed sum entries)
          (unfold Keeps in (λ n c h. h)) (unfold SkipsAlike in (λ n h. refl)) e in
      apply_each-settled seeds (apply_each exec seeds s.ledger (load sum entries) s).1.ledger
        (load sum entries) (apply_each exec seeds s.ledger (load sum entries) s).1 done

  -- What a loop runs begins what not_run.
  apply_each-waiting :
      (seeds : Bool) (applied : List LedgerRow) (ms : List Migration) (s : Store S)
      → (rest : List (List ℕ)) × ((apply_each exec seeds applied ms s).0.ran ++ rest
          ≡ map (λ (m : Migration). m.name) (select_where (not_run seeds applied) ms))
        × ((apply_each exec seeds applied ms s).0.failure ≡ none → rest ≡ [])
  unfolding select_where IsSettled
  apply_each-waiting seeds applied [] s = unfold apply_each in ([], refl, λ _. refl)
  apply_each-waiting seeds applied (m ∷ ms) s = elim (apply_each-cases seeds applied m ms s) [
    | inl (inl l, q) ↦
        let (rest, r, n) = apply_each-waiting seeds applied ms s in
        (rest, rw (q, l) r, λ e. n (rw q at e))
    | inl (inr (l, t), q) ↦
        let (rest, r, n) = apply_each-waiting seeds applied ms s in
        (rest, rw (q, l, t) r, λ e. n (rw q at e))
    | inr (inl (t, l, f, h, q)) ↦
        let (rest, r, n) = apply_each-waiting seeds applied ms t in
        (rest, rw (q, l, f) (ap (λ (ns : List (List ℕ)). m.name ∷ ns) r), λ e. n (rw q at e))
    | inr (inr (f, q)) ↦ (
      map (λ (m : Migration). m.name) (select_where (not_run seeds applied) (m ∷ ms)),
      rw q,
      λ e. absurd (ground (arith, q)),
    )
  ]

  -- The files that Apply reports begin the list that Pending gives beforehand, in its order; when
  -- Apply does not fail, they are that whole list.
  pub apply-pending_names :
      (seeds : Bool) (ms : List Migration) (s : Store S)
      → (rest : List (List ℕ)) × ((apply exec seeds ms s).0.ran ++ rest ≡ pending_names seeds ms s)
        × ((apply exec seeds ms s).0.failure ≡ none → rest ≡ [])
  unfolding apply pending_names
  apply-pending_names seeds ms s = apply_each-waiting seeds s.ledger ms s
