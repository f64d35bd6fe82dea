-- ===== src/Domain/Copies.antt =====
-- The state machine of one physical volume: copyTransitions, CanTransitionTo and ClosesAnOpenLoan of
-- internal/domain/domain.go.
use holibrary_backend.Prelude.{◌≡◌, Bool, true, false, ◌||◌, List, [], ◌∷◌, if◌then◌else◌, arith}
use holibrary_backend.Domain.Types.{
  CopyStatus, available, on_loan, lost, damaged, withdrawn, status_eq,
}

unfoldable copy_transitions : CopyStatus → List CopyStatus
copy_transitions available = damaged ∷ lost ∷ withdrawn ∷ []
copy_transitions on_loan = lost ∷ damaged ∷ []
copy_transitions lost = available ∷ withdrawn ∷ []
copy_transitions damaged = available ∷ withdrawn ∷ []
copy_transitions withdrawn = []

-- the loop of CanTransitionTo
unfoldable is_listed : CopyStatus → List CopyStatus → Bool
is_listed next [] = false
is_listed next (allowed ∷ rest) = status_eq allowed next || is_listed next rest

unfoldable pub can_transition_to : CopyStatus → CopyStatus → Bool
unfolding is_listed copy_transitions
can_transition_to c next = if status_eq c next then true else is_listed next (copy_transitions c)

unfoldable pub closes_an_open_loan : CopyStatus → Bool
closes_an_open_loan c = status_eq c lost || status_eq c damaged

pub data Reach (s : CopyStatus) : CopyStatus → Type 0 where
  here : Reach s s
  next : {t u : CopyStatus} → Reach s t → can_transition_to t u ≡ true → Reach s u

into_loan : (c n : CopyStatus) → can_transition_to c n ≡ true → n ≡ on_loan → c ≡ on_loan
unfolding can_transition_to
into_loan c n h e = ground arith

out_of_withdrawn : (c n : CopyStatus) → can_transition_to c n ≡ true → c ≡ withdrawn → n ≡ withdrawn
unfolding can_transition_to
out_of_withdrawn c n h e = ground arith

-- Over any number of permitted changes, a copy's status comes to `on_loan` only from `on_loan`, and
-- from `withdrawn` it stays `withdrawn`.
pub Reach-IsSafe :
    {s t : CopyStatus} → Reach s t → (t ≡ on_loan → s ≡ on_loan) × (s ≡ withdrawn → t ≡ withdrawn)
Reach-IsSafe here = ((λ e. e), (λ e. e))
Reach-IsSafe (next {t} {u} r h) = (
  (λ e. (Reach-IsSafe r).0 (into_loan t u h e)),
  (λ e. out_of_withdrawn t u h ((Reach-IsSafe r).1 e)),
)
