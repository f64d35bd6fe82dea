-- ===== src/Db/Transaction.antt =====
-- do blocks inside a transaction.
use holibrary_backend.Prelude.{Bool, true, false, ok, err}
use holibrary_backend.Domain.{Error}
use holibrary_backend.Db.Rows.{Db}
use holibrary_backend.Db.Monads.{Tx}

infixl 5 ◌>>=◌ ◌>>◌
abbrev pub ◌>>=◌ : {A B : Type 0} → Tx A → (A → Tx B) → Tx B
◌>>=◌ m f db = elim (m db) [ ok (a, db') ↦ f a db' | err e ↦ err e ]

abbrev pub ◌>>◌ : {B : Type 0} → Tx (Unit {0}) → Tx B → Tx B
◌>>◌ m k db = elim (m db) [ ok (_, db') ↦ k db' | err e ↦ err e ]

abbrev pub pure : {A : Type 0} → A → Tx A
pure a db = ok (a, db)

-- `if !b { return e }`
abbrev pub guard : Bool → Error → Tx (Unit {0})
guard true e db = ok (tt, db)
guard false e db = err e

abbrev pub read : {A : Type 0} → (Db → A) → Tx A
read f db = ok (f db, db)

abbrev pub write : (Db → Db) → Tx (Unit {0})
write f db = ok (tt, f db)
