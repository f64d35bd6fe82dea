-- ===== src/Migrations/Apply.antt =====
-- internal/migrate/migrate.go: Load, Apply and Pending. The embedded files, the SHA-256 sum and what
-- Postgres does with a script are arguments; no script touches schema_migrations itself.
use holibrary_backend.Prelude.{
  ℕ, ltb, ◌==◌, Bool, true, false, ◌||◌, ◌&&◌, not, Option, none, some, List, [], ◌∷◌, map, codes,
  text_eq, has_prefix, has_suffix, find_where, select_where, sort_by, if◌then◌else◌, is_some,
  Result, ok, err,
}

-- strings.Contains
abbrev pub contains : List ℕ → List ℕ → Bool
contains [] t = has_prefix [] t
contains (c ∷ s) t = has_prefix (c ∷ s) t || contains s t

-- The order of strings
abbrev pub text_before : List ℕ → List ℕ → Bool
text_before _ [] = false
text_before [] (d ∷ t) = true
text_before (c ∷ s) (d ∷ t) = ltb c d || c == d && text_before s t

-- An entry of the embedded directory.
pub record Entry : Type 0 where
  pub name : List ℕ
  pub is_dir : Bool
  pub body : List ℕ

pub record Migration : Type 0 where
  pub name : List ℕ
  pub sql : List ℕ
  pub checksum : List ℕ
  pub seed : Bool

unfoldable pub is_seed : List ℕ → Bool
is_seed name = contains name (codes "seed")

unfoldable pub is_script : Entry → Bool
is_script e = not e.is_dir && has_suffix e.name (codes ".sql")

unfoldable pub migration_of : (List ℕ → List ℕ) → Entry → Migration
migration_of sum e = record {
  name = e.name;
  sql = e.body;
  checksum = sum e.body;
  seed = is_seed e.name;
}

abbrev pub name_before : Migration → Migration → Bool
name_before m n = text_before m.name n.name

unfoldable pub load : (List ℕ → List ℕ) → List Entry → List Migration
load sum entries = sort_by name_before (map (migration_of sum) (select_where is_script entries))

-- A row of schema_migrations.
pub record LedgerRow : Type 0 where
  pub name : List ℕ
  pub checksum : List ℕ

-- The ledger, and all the rest of the database.
pub record Store (S : Type 0) : Type 0 where
  pub ledger : List LedgerRow
  pub schema : S

pub data Failure : Type 0 where
  changed script_failed already_recorded : List ℕ → Failure

pub record Report : Type 0 where
  pub ran : List (List ℕ)
  pub failure : Option Failure

abbrev has_name : List ℕ → LedgerRow → Bool
has_name name r = text_eq r.name name

abbrev checksum_of : Option LedgerRow → Option (List ℕ)
checksum_of none = none
checksum_of (some r) = some r.checksum

-- applied[name]
unfoldable pub lookup : List ℕ → List LedgerRow → Option (List ℕ)
lookup name rows = checksum_of (find_where (has_name name) rows)

abbrev pub skips : Bool → Migration → Bool
skips include_seeds m = m.seed && not include_seeds

abbrev pub stopped : Failure → Report
stopped e = record { ran = []; failure = some e }

abbrev pub prepend : List ℕ → Report → Report
prepend name r = record { ran = name ∷ r.ran; failure = r.failure }

module _ {S : Type 0} (exec : List ℕ → S → Option S) where
  -- One transaction: the script, and the row of the ledger, whose key is the name.
  unfoldable pub apply_one : Migration → Store S → Result Failure (Store S)
  apply_one m s = elim (exec m.sql s.schema) [
    | none ↦ err (script_failed m.name)
    | some after ↦
        if is_some (lookup m.name s.ledger)
        then err (already_recorded m.name)
        else ok (record {
          ledger = record { name = m.name; checksum = m.checksum } ∷ s.ledger;
          schema = after;
        })
  ]

  -- The loop of Apply; `applied` is the ledger as it was read before the loop.
  unfoldable pub apply_each : Bool → List LedgerRow → List Migration → Store S → Report × Store S
  unfolding apply_one
  apply_each include_seeds applied [] s = (record { ran = []; failure = none }, s)
  apply_each include_seeds applied (m ∷ ms) s = elim (lookup m.name applied) [
    | some sum ↦
        if text_eq sum m.checksum
        then apply_each include_seeds applied ms s
        else (stopped (changed m.name), s)
    | none ↦
        if skips include_seeds m
        then apply_each include_seeds applied ms s
        else elim (apply_one m s) [
          | err e ↦ (stopped e, s)
          | ok s' ↦
              let (report, end) = apply_each include_seeds applied ms s' in
              (prepend m.name report, end)
        ]
  ]

  unfoldable pub apply : Bool → List Migration → Store S → Report × Store S
  unfolding apply_each
  apply include_seeds ms s = apply_each include_seeds s.ledger ms s

abbrev pub not_run : Bool → List LedgerRow → Migration → Bool
not_run include_seeds applied m = not (is_some (lookup m.name applied) || skips include_seeds m)

-- Pending
unfoldable pub pending_names : {S : Type 0} → Bool → List Migration → Store S → List (List ℕ)
unfolding lookup
pending_names include_seeds ms s =
    map (λ (m : Migration). m.name) (select_where (not_run include_seeds s.ledger) ms)
