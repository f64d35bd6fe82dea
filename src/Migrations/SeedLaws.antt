-- ===== src/Migrations/SeedLaws.antt =====
-- internal/migrate/migrate.go: what Apply never does, whether it fails or not: run the demonstration
-- data unasked, and go past a file that was edited after it ran.
use mathlib.Core.Path.{subst}
use holibrary_backend.Prelude.{
  ℕ, ◌≡◌, ◌≢◌, refl, sym, Bool, true, false, Option, none, some, List, [], ◌∷◌, text_eq,
  text_eq_refl, inl, inr, ◌⊎◌, arith,
}
use holibrary_backend.Migrations.Apply.{
  Migration, Entry, LedgerRow, Store, Report, is_seed, lookup, apply_each, apply, load,
}
use holibrary_backend.Migrations.Lookups.{SkipsAlike, apply_one-SkipsAlike, SkipsAlike-trans}
use holibrary_backend.Migrations.ApplyLaws.{AllNamed, load-AllNamed, IsSettled, apply_each-cases}

-- Some file of the list was recorded with another sum.
unfoldable pub SomeChanged : List LedgerRow → List Migration → Type 0
SomeChanged rows [] = ⊥
SomeChanged rows (m ∷ ms) =
    ((sum : List ℕ) × (lookup m.name rows ≡ some sum) × (text_eq sum m.checksum ≡ false))
    ⊎ SomeChanged rows ms

module _ {S : Type 0} (exec : List ℕ → S → Option S) where
  apply_each-SkipsAlike :
      (seeds : Bool) (applied : List LedgerRow) (ms : List Migration) (s : Store S)
      → AllNamed ms
      → SkipsAlike seeds s.ledger (apply_each exec seeds applied ms s).1.ledger
  unfolding AllNamed
  apply_each-SkipsAlike seeds applied [] s _ = unfold SkipsAlike apply_each in (λ n h. refl)
  apply_each-SkipsAlike seeds applied (m ∷ ms) s (e, n) =
      elim (apply_each-cases exec seeds applied m ms s) [
        | inl (_, q) ↦
            subst (λ (x : Report × Store S). SkipsAlike seeds s.ledger x.1.ledger) (sym q)
              (apply_each-SkipsAlike seeds applied ms s n)
        | inr (inl (t, l, f, h, q)) ↦
            subst (λ (x : Report × Store S). SkipsAlike seeds s.ledger x.1.ledger) (sym q)
              (SkipsAlike-trans seeds s.ledger t.ledger
                (apply_each exec seeds applied ms t).1.ledger
                (apply_one-SkipsAlike exec seeds m s t e f h)
                (apply_each-SkipsAlike seeds applied ms t n))
        | inr (inr (f, q)) ↦
            subst (λ (x : Report × Store S). SkipsAlike seeds s.ledger x.1.ledger) (sym q)
              (unfold SkipsAlike in (λ n h. refl))
      ]

  -- Without the switch for seeds, Apply records no file whose name contains "seed", even when it
  -- fails half-way.
  pub apply_no_seeds :
      (sum : List ℕ → List ℕ) (entries : List Entry) (s : Store S) (n : List ℕ)
      → is_seed n ≡ true
      → lookup n (apply exec false (load sum entries) s).1.ledger ≡ lookup n s.ledger
  unfolding apply SkipsAlike
  apply_no_seeds sum entries s n h =
      apply_each-SkipsAlike false s.ledger (load sum entries) s (load-AllNamed sum entries) n (rw h)

  refuses_changed :
      (seeds : Bool) (applied : List LedgerRow) (ms : List Migration) (s : Store S)
      → SomeChanged applied ms
      → (apply_each exec seeds applied ms s).0.failure ≢ none
  unfolding SomeChanged IsSettled
  refuses_changed seeds applied (m ∷ ms) s (inl (sum, l, d)) e =
      elim (apply_each-cases exec seeds applied m ms s) [
        | inl (h, q) ↦ absurd (ground (arith, h, l, d, text_eq_refl m.checksum))
        | inr (inl (t, n, f, h, q)) ↦ absurd (ground (arith, l, n))
        | inr (inr (f, q)) ↦ absurd (ground (arith, q))
      ]
  refuses_changed seeds applied (m ∷ ms) s (inr c) e =
      elim (apply_each-cases exec seeds applied m ms s) [
        | inl (h, q) ↦ refuses_changed seeds applied ms s c (rw q at e)
        | inr (inl (t, n, f, h, q)) ↦ refuses_changed seeds applied ms t c (rw q at e)
        | inr (inr (f, q)) ↦ absurd (ground (arith, q))
      ]
  refuses_changed seeds applied [] s c e = absurd c

  -- A file that was edited after it ran makes Apply fail, wherever it stands in the list and whatever
  -- else is to be run.
  pub apply_changed :
      (seeds : Bool) (ms : List Migration) (s : Store S)
      → SomeChanged s.ledger ms
      → (apply exec seeds ms s).0.failure ≢ none
  unfolding apply
  apply_changed seeds ms s c = refuses_changed seeds s.ledger ms s c
