-- ===== src/Resilience/Breaker/Session.antt =====
-- A breaker with its callers: each admitted call holds the callback that `acquire` returned, and
-- runs it once. Any interleaving of concurrent calls is a list of events.
use go_order_management_syst.Prelude.{ℕ, zero, suc, Bool, List, [], ◌∷◌, Option, none, some}
use go_order_management_syst.Resilience.Breaker.{
  CircuitBreaker, Acquired, admitted, rejected, acquire, complete,
}

pub data Event : Type 0 where
  -- a call asks to be admitted at this time
  asks : ℕ → Event
  -- the call that holds this callback ends, at this time, with this success
  ends : ℕ → ℕ → Bool → Event

pub record Session : Type 0 where
  pub breaker : CircuitBreaker
  -- the callbacks that have not run, each with its probe mark
  pub callbacks : List Bool

abbrev pub nth : ℕ → List Bool → Option Bool
nth i [] = none
nth zero (x ∷ xs) = some x
nth (suc i) (x ∷ xs) = nth i xs

abbrev pub remove_nth : ℕ → List Bool → List Bool
remove_nth i [] = []
remove_nth zero (x ∷ xs) = xs
remove_nth (suc i) (x ∷ xs) = x ∷ remove_nth i xs

abbrev pub hold : Acquired → List Bool → List Bool
hold (admitted probe) l = probe ∷ l
hold (rejected retry_after) l = l

-- `sync.Once`: a callback that has run is gone, and running it again does nothing.
unfoldable pub step : Session → Event → Session
step s (asks now) =
    let (b, r) = acquire now s.breaker in record { breaker = b; callbacks = hold r s.callbacks }
step s (ends i now success) = elim (nth i s.callbacks) [
  | none ↦ s
  | some probe ↦ record {
    breaker = complete now probe success s.breaker;
    callbacks = remove_nth i s.callbacks;
  }
]

unfoldable pub run : Session → List Event → Session
run s [] = s
run s (e ∷ es) = run (step s e) es
