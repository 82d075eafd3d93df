-- ===== src/Runtime/Coordinator.antt =====
-- src/suitcode/runtime/coordinator.py: `CoordinatorServer._coordinator_state`, the state that the
-- coordinator publishes for the sessions it holds. Times are whole milliseconds.
use code_suit.Base.{
  ℕ, ◌+◌, ◌*◌, ◌≤◌, ◌↔◌, Bool, true, false, not, ◌||◌, List, [], ◌∷◌, ◌≡◌, Eq, contains, ltb,
  if◌then◌else◌, arith, all, refl,
}
use code_suit.Runtime.Session.{ServerState, starting, ready, warming, degraded, stopped, second}

pub data CoordinatorState : Type 0 where
  starting_up serving warming_up impaired shutting_down : CoordinatorState

unfoldable pub ServerState-discrete : Discrete ServerState
ServerState-discrete = hlevel

instance unfoldable pub server_state_eq : Eq ServerState
unfolding ServerState-discrete
server_state_eq = record { dec = ServerState-discrete }

-- `serving` is the source's READY, `impaired` its DEGRADED. A session is stopping, or there is none,
-- or the worst state of the sessions decides.
unfoldable pub coordinator_state : Bool → ℕ → ℕ → List ServerState → CoordinatorState
unfolding server_state_eq
coordinator_state true now started_at states = shutting_down
coordinator_state false now started_at [] =
    if ltb now (started_at + 5 * second) then starting_up else serving
coordinator_state false now started_at (s ∷ states) =
    if contains (s ∷ states) warming || contains (s ∷ states) starting
    then warming_up
    else if contains (s ∷ states) degraded
    then impaired
    else serving

abbrev pub settled : ServerState → Bool
settled ready = true
settled stopped = true
settled starting = false
settled warming = false
settled degraded = false

all-settled :
    (states : List ServerState)
    → all settled states
      ≡ not (contains states warming || contains states starting || contains states degraded)
unfolding server_state_eq
all-settled [] = refl
all-settled (ready ∷ states) = all-settled states
all-settled (stopped ∷ states) = all-settled states
all-settled (starting ∷ states) = ground arith
all-settled (warming ∷ states) = ground arith
all-settled (degraded ∷ states) = ground arith

-- A coordinator that is not stopping serves exactly when every session is ready or stopped, and,
-- where it has no session, it has run for five seconds.
pub coordinator_state_iff :
    (now started_at : ℕ) (states : List ServerState)
    → (coordinator_state false now started_at states ≡ serving)
      ↔ ((all settled states ≡ true) × (states ≡ [] → started_at + 5 * second ≤ now))
unfolding coordinator_state
coordinator_state_iff now started_at [] =
    (λ h. (refl, λ e. ground arith), λ h. ground (arith, h.1 refl))
coordinator_state_iff now started_at (s ∷ states) = (
  λ h. (ground (arith, all-settled (s ∷ states)), λ e. absurd cc),
  λ h. ground (arith, all-settled (s ∷ states)),
)
