-- ===== src/Domain/Retention.antt =====
-- Availability and the last-copy retention rule of internal/domain/domain.go.
use holibrary_backend.Prelude.{ℕ, ◌-◌, Bool, leb, ltb, if◌then◌else◌}

unfoldable pub borrowable_count : ℕ → ℕ → ℕ
borrowable_count stock available =
    if ltb stock 2 then available else if leb available 1 then 0 else available - 1

unfoldable retains_a_shelf_copy : ℕ → Bool
retains_a_shelf_copy stock = leb 2 stock

pub record Availability : Type 0 where
  pub total_copies : ℕ
  pub available : ℕ
  pub on_loan : ℕ
  pub not_for_loan : ℕ
  pub stock : ℕ

unfoldable pub borrowable : Availability → ℕ
unfolding borrowable_count
borrowable a = borrowable_count a.stock a.available

unfoldable pub is_available : Availability → Bool
unfolding borrowable
is_available a = ltb 0 (borrowable a)

unfoldable on_shelf : Availability → Bool
on_shelf a = ltb 0 a.available
