-- ===== src/Witnesses/MigrationRuns.antt =====
-- Three files on an empty database, the second of which is demonstration data.
use Prim.Native.String.{String}
use holibrary_backend.Prelude.{
  ℕ, ◌+◌, ◌≡◌, refl, inl, false, Option, none, some, List, [], ◌∷◌, ◌++◌, codes, text_eq,
  if◌then◌else◌, has_suffix, find_where, select_where, sort_by, insert_by,
}
use holibrary_backend.Migrations.Apply.{
  Entry, Store, apply, apply_each, apply_one, load, migration_of, is_seed, is_script, lookup,
}
use holibrary_backend.Migrations.ApplyLaws.{apply_twice}
use holibrary_backend.Migrations.SeedLaws.{SomeChanged}

file : String → String → Entry
file name body = record { name = codes name; is_dir = false; body = codes body }

abbrev entries : List Entry
entries =
    file "0003_index.sql" "c"
    ∷ file "0001_init.sql" "a"
    ∷ file "README" "x"
    ∷ file "0002_seed.sql" "b"
    ∷ []

-- A script that says "bad" fails; any other is counted.
abbrev exec : List ℕ → ℕ → Option ℕ
exec sql n = if text_eq sql (codes "bad") then none else some (n + 1)

abbrev empty : Store ℕ
empty = record { ledger = []; schema = 0 }

sum : List ℕ → List ℕ
sum body = body ++ codes "#"

first_run :
    (apply exec false (load sum entries) empty).0
    ≡ record { ran = codes "0001_init.sql" ∷ codes "0003_index.sql" ∷ []; failure = none }
unfolding apply apply_each apply_one load select_where sort_by insert_by migration_of is_seed
    is_script lookup find_where file sum has_suffix text_eq
first_run = refl

abbrev after : Store ℕ
after = record {
  ledger =
      record { name = codes "0003_index.sql"; checksum = codes "c#" }
      ∷ record { name = codes "0001_init.sql"; checksum = codes "a#" }
      ∷ [];
  schema = 2;
}

first_end : (apply exec false (load sum entries) empty).1 ≡ after
unfolding apply apply_each apply_one load select_where sort_by insert_by migration_of is_seed
    is_script lookup find_where file sum has_suffix text_eq
first_end = refl

apply_twice_example :
    apply exec false (load sum entries) (apply exec false (load sum entries) empty).1
    ≡ (record { ran = []; failure = none }, (apply exec false (load sum entries) empty).1)
apply_twice_example = apply_twice exec sum entries false empty (rw first_run)

edited : SomeChanged after.ledger (load (λ body. codes "other") entries)
unfolding SomeChanged load select_where sort_by insert_by migration_of is_seed is_script lookup
    find_where file has_suffix text_eq
edited = inl (codes "a#", refl, refl)
