-- ===== src/Accounts/RateLimit.antt =====
-- The in-process limiter of internal/ratelimit/ratelimit.go, and `allow` of
-- internal/service/auth_service.go, which falls back to it. The map of windows is an association
-- list; what the shared limiter (Redis) answers is an argument.
use holibrary_backend.Prelude.{
  ℕ, ◌+◌, ◌*◌, leb, ltb, Bool, true, Option, none, some, List, ◌∷◌, if◌then◌else◌, find_where,
  update_where, delete_where, text_eq,
}
use holibrary_backend.Domain.{second, hour}

pub record Window : Type 0 where
  pub key : List ℕ
  pub count : ℕ
  pub reset : ℕ

abbrev pub Memory : Type 0
Memory = List Window

pub record Policy : Type 0 where
  pub limit : ℕ
  pub window : ℕ

abbrev pub per_account_login : Policy
per_account_login = record { limit = 5; window = 60 * second }

abbrev pub per_account_reset : Policy
per_account_reset = record { limit = 3; window = hour }

abbrev pub has_key : List ℕ → Window → Bool
has_key k e = text_eq e.key k

-- now.After(reset)
abbrev pub is_over : ℕ → Window → Bool
is_over now e = ltb e.reset now

-- m.windows[key] = entry
unfoldable pub put : Window → Memory → Memory
put e ws = elim (find_where (has_key e.key) ws) [
  | none ↦ e ∷ ws
  | some _ ↦ update_where (has_key e.key) (λ _. e) ws
]

-- The entry that Allow counts in: the stored one while it lasts, or a new one.
abbrev pub current : List ℕ → ℕ → ℕ → Option Window → Window
current k w now none = record { key = k; count = 0; reset = now + w }
current k w now (some e) =
    if is_over now e then record { key = k; count = 0; reset = now + w } else e

abbrev pub counted : Window → Window
counted e = record e { count = e.count + 1 }

-- Memory.Allow
unfoldable pub allow : List ℕ → ℕ → ℕ → ℕ → Memory → Bool × Memory
allow k limit w now ws =
    let e = counted (current k w now (find_where (has_key k) ws)) in
    (leb e.count limit, put (record e { key = k }) ws)

-- One round of Memory.sweep
unfoldable pub sweep : ℕ → Memory → Memory
sweep now ws = delete_where (is_over now) ws

-- The shared limiter: not configured, failing, or its answer.
pub data Shared : Type 0 where
  no_limiter unreachable : Shared
  answers : Bool → Shared

-- AuthService.allow
unfoldable pub allow_account : Shared → List ℕ → Policy → ℕ → Memory → Bool × Memory
allow_account no_limiter k p now ws = (true, ws)
allow_account (answers b) k p now ws = (b, ws)
allow_account unreachable k p now ws = allow k p.limit p.window now ws
