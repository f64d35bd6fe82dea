-- ===== src/Migrations/Lookups.antt =====
-- internal/migrate/migrate.go: what one migration, and a whole loop of Apply, do to the ledger.
use holibrary_backend.Prelude.{
  ℕ, ◌≡◌, ◌∙◌, Bool, true, false, ◌&&◌, not, Option, some, List, ◌∷◌, ok, text_eq_refl,
  eq-of-text_eq, find_where, arith,
}
use holibrary_backend.Migrations.Apply.{
  Migration, LedgerRow, Store, is_seed, lookup, skips, apply_one,
}

-- The ledger keeps what it says of every name that it holds.
unfoldable pub Keeps : List LedgerRow → List LedgerRow → Type 0
Keeps old new = (n sum : List ℕ) → lookup n old ≡ some sum → lookup n new ≡ some sum

-- It says the same of the names that are skipped.
unfoldable pub SkipsAlike : Bool → List LedgerRow → List LedgerRow → Type 0
SkipsAlike include_seeds old new =
    (n : List ℕ) → (is_seed n && not include_seeds) ≡ true → lookup n new ≡ lookup n old

pub lookup-new :
    (r : LedgerRow) (rows : List LedgerRow) → lookup r.name (r ∷ rows) ≡ some r.checksum
unfolding lookup find_where
lookup-new r rows = ground (arith, text_eq_refl r.name)

module _ {S : Type 0} (exec : List ℕ → S → Option S) where
  pub apply_one-Keeps :
      (m : Migration) (s t : Store S) → apply_one exec m s ≡ ok t → Keeps s.ledger t.ledger
  unfolding apply_one Keeps lookup find_where
  apply_one-Keeps m s t e n sum h = ground (arith, eq-of-text_eq m.name n)

  pub apply_one-SkipsAlike :
      (include_seeds : Bool) (m : Migration) (s t : Store S)
      → m.seed ≡ is_seed m.name
      → skips include_seeds m ≡ false
      → apply_one exec m s ≡ ok t
      → SkipsAlike include_seeds s.ledger t.ledger
  unfolding apply_one SkipsAlike lookup find_where
  apply_one-SkipsAlike include_seeds m s t k u e n h = ground (arith, eq-of-text_eq m.name n)

  pub apply_one-lookup :
      (m : Migration) (s t : Store S)
      → apply_one exec m s ≡ ok t
      → lookup m.name t.ledger ≡ some m.checksum
  unfolding apply_one lookup find_where
  apply_one-lookup m s t e = ground (arith, text_eq_refl m.name)

pub Keeps-trans : (a b c : List LedgerRow) → Keeps a b → Keeps b c → Keeps a c
unfolding Keeps
Keeps-trans a b c h k n sum e = k n sum (h n sum e)

pub SkipsAlike-trans :
    (include_seeds : Bool) (a b c : List LedgerRow)
    → SkipsAlike include_seeds a b
    → SkipsAlike include_seeds b c
    → SkipsAlike include_seeds a c
unfolding SkipsAlike
SkipsAlike-trans include_seeds a b c h k n e = k n e ∙ h n e
