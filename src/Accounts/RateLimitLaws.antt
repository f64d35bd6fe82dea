-- ===== src/Accounts/RateLimitLaws.antt =====
-- What the in-process limiter promises: internal/ratelimit/ratelimit.go, `Memory`.
use mathlib.Core.Path.{subst}
use holibrary_backend.Prelude.{
  ℕ, ◌+◌, leb, ◌≡◌, refl, sym, ◌∙◌, Bool, true, false, ◌&&◌, not, Option, none, some, List, [], ◌∷◌,
  if◌then◌else◌, find_where, update_where, delete_where, text_eq, text_eq_refl, eq-of-text_eq,
  Bool-cases, Option-cases, inl, inr, arith,
}
use holibrary_backend.Accounts.RateLimit.{
  Window, Memory, has_key, is_over, put, current, counted, allow, sweep,
}

find-overwrite :
    (e x : Window) (ws : Memory)
    → find_where (has_key e.key) ws ≡ some x
    → find_where (has_key e.key) (update_where (has_key e.key) (λ _. e) ws) ≡ some e
unfolding find_where update_where
find-overwrite e x [] h = cc
find-overwrite e x (y ∷ ws) h = ground (arith, text_eq_refl e.key, find-overwrite e x ws)

find-put_same : (e : Window) (ws : Memory) → find_where (has_key e.key) (put e ws) ≡ some e
unfolding put
find-put_same e ws = elim (Option-cases (find_where (has_key e.key) ws)) [
  | inl n ↦ rw (put, n) (unfold find_where in ground (arith, text_eq_refl e.key))
  | inr (x, s) ↦ rw (put, s) (find-overwrite e x ws s)
]

keys_apart : (j k l : List ℕ) → text_eq j k ≡ false → text_eq l j ≡ true → text_eq l k ≡ false
keys_apart j k l n h = subst (λ m. text_eq m k ≡ false) (sym (eq-of-text_eq l j h)) n

find-overwrite_other :
    (k : List ℕ) (e : Window) (ws : Memory)
    → text_eq e.key k ≡ false
    → find_where (has_key k) (update_where (has_key e.key) (λ _. e) ws) ≡ find_where (has_key k) ws
unfolding find_where update_where
find-overwrite_other k e [] n = refl
find-overwrite_other k e (y ∷ ws) n =
    ground (arith, keys_apart e.key k y.key n, find-overwrite_other k e ws)

find-put_other :
    (k : List ℕ) (e : Window) (ws : Memory)
    → text_eq e.key k ≡ false
    → find_where (has_key k) (put e ws) ≡ find_where (has_key k) ws
unfolding put
find-put_other k e ws n = elim (Option-cases (find_where (has_key e.key) ws)) [
  | inl m ↦ rw (put, m) (unfold find_where in ground arith)
  | inr (x, s) ↦ rw (put, s) (find-overwrite_other k e ws n)
]

find-sweep :
    (k : List ℕ) (now : ℕ) (e : Window) (ws : Memory)
    → find_where (has_key k) ws ≡ some e
    → is_over now e ≡ false
    → find_where (has_key k) (sweep now ws) ≡ some e
unfolding sweep find_where delete_where
find-sweep k now e [] h n = cc
find-sweep k now e (x ∷ ws) h n = ground (arith, find-sweep k now e ws)

-- What happens to the limiter: an attempt under a key, or a round of the sweeper.
pub data Event : Type 0 where
  attempt : List ℕ → ℕ → Event
  tick : ℕ → Event

abbrev time_of : Event → ℕ
time_of (attempt k t) = t
time_of (tick t) = t

-- How many attempts under `k` the limiter lets through, when every attempt has this limit and window.
unfoldable pub admitted : List ℕ → ℕ → ℕ → List Event → Memory → ℕ
admitted k limit w [] ws = 0
admitted k limit w (tick t ∷ es) ws = admitted k limit w es (sweep t ws)
admitted k limit w (attempt j t ∷ es) ws =
    let (b, ws') = allow j limit w t ws in
    (if b && text_eq j k then 1 else 0) + admitted k limit w es ws'

unfoldable pub attempts : List ℕ → List Event → ℕ
attempts k [] = 0
attempts k (tick t ∷ es) = attempts k es
attempts k (attempt j t ∷ es) = (if text_eq j k then 1 else 0) + attempts k es

abbrev pub at_most : ℕ → ℕ → ℕ
at_most limit n = if leb n limit then n else limit

unfoldable pub all_by : ℕ → List Event → Bool
all_by t [] = true
all_by t (e ∷ es) = leb (time_of e) t && all_by t es

abbrev next_entry : List ℕ → Window → Window
next_entry j e = record { key = j; count = e.count + 1; reset = e.reset }

allow_hit :
    (j : List ℕ) (limit w u : ℕ) (e : Window) (ws : Memory)
    → find_where (has_key j) ws ≡ some e
    → is_over u e ≡ false
    → allow j limit w u ws ≡ (leb (e.count + 1) limit, put (next_entry j e) ws)
unfolding allow
allow_hit j limit w u e ws h n = rw (allow, h) (rw n refl)

allow_other :
    (j k : List ℕ) (limit w u : ℕ) (ws : Memory)
    → text_eq j k ≡ false
    → find_where (has_key k) (allow j limit w u ws).1 ≡ find_where (has_key k) ws
unfolding allow
allow_other j k limit w u ws n =
    find-put_other k (record (counted (current j w u (find_where (has_key j) ws))) { key = j }) ws n

-- With a live window for `k`, later events before it ends are counted in it.
live_bound :
    (k : List ℕ) (limit w : ℕ) (es : List Event) (e : Window) (ws : Memory)
    → find_where (has_key k) ws ≡ some e
    → all_by e.reset es ≡ true
    → admitted k limit w es ws + at_most limit e.count ≡ at_most limit (e.count + attempts k es)
unfolding admitted attempts all_by
live_bound k limit w [] e ws h a = ground arith
live_bound k limit w (tick u ∷ es) e ws h a =
    live_bound k limit w es e (sweep u ws) (find-sweep k u e ws h (ground arith)) (ground arith)
live_bound k limit w (attempt j u ∷ es) e ws h a = elim (Bool-cases (text_eq j k)) [
  | inl t ↦
      let here = subst (λ m. find_where (has_key m) ws ≡ some e) (sym (eq-of-text_eq j k t)) h in
      let hit = allow_hit j limit w u e ws here (ground arith) in
      let found =
        subst (λ m. find_where (has_key m) (put (next_entry j e) ws) ≡ some (next_entry j e))
          (eq-of-text_eq j k t) (find-put_same (next_entry j e) ws) in
      let rest =
        live_bound k limit w es (next_entry j e) (put (next_entry j e) ws) found (ground arith) in
      rw hit (ground (arith, rest))
  | inr n ↦
      let rest =
        live_bound k limit w es e (allow j limit w u ws).1 (allow_other j k limit w u ws n ∙ h)
          (ground arith) in
      ground (arith, rest)
]

abbrev opening : List ℕ → ℕ → ℕ → Window
opening k w t = record { key = k; count = 1; reset = t + w }

abbrev pub is_live : ℕ → Option Window → Bool
is_live t none = false
is_live t (some e) = not (is_over t e)

allow_open :
    (k : List ℕ) (limit w t : ℕ) (ws : Memory)
    → is_live t (find_where (has_key k) ws) ≡ false
    → allow k limit w t ws ≡ (leb 1 limit, put (opening k w t) ws)
unfolding allow
allow_open k limit w t ws n = elim (Option-cases (find_where (has_key k) ws)) [
  | inl m ↦ rw (allow, m) refl
  | inr (e, s) ↦ let over : is_over t e ≡ true = ground arith in rw (allow, s) (rw over refl)
]

-- In one window the limiter lets through as many attempts under a key as the limit says and no more:
-- counting from an attempt at a time with no live window for the key, and up to the end of the window
-- that it opens, whatever attempts under other keys and rounds of the sweeper come in between.
pub window_limit :
    (k : List ℕ) (limit w t : ℕ) (es : List Event) (ws : Memory)
    → is_live t (find_where (has_key k) ws) ≡ false
    → all_by (t + w) es ≡ true
    → admitted k limit w (attempt k t ∷ es) ws ≡ at_most limit (attempts k (attempt k t ∷ es))
unfolding admitted attempts
window_limit k limit w t es ws n a =
    let rest =
      live_bound k limit w es (opening k w t) (put (opening k w t) ws)
        (find-put_same (opening k w t) ws) a in
    rw (allow_open k limit w t ws n) (ground (arith, rest, text_eq_refl k))
