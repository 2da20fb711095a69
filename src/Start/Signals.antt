-- ===== src/Start/Signals.antt =====
-- main.go: handleSignals on the signals that come, and shutdown.
use open_blocklist.Base.{List, [], ◌∷◌, Bool, true, false, ◌≡◌, refl, if◌then◌else◌}

-- The signals that it has asked for.
pub data Signal : Type 0 where
  sighup sigint sigterm : Signal

-- The goroutine waits for the next signal, with gShutdownRequested as it was; or the process ended with
-- the exit code 0, behind shutdown, which sets it.
pub data Handled : Type 0 where
  waiting : Handled
  exited : (shutdown_requested : Bool) → Handled

unfoldable pub handle_signals : List Signal → Handled
handle_signals [] = waiting
handle_signals (sighup ∷ signals) = handle_signals signals
handle_signals (sigint ∷ signals) = exited true
handle_signals (sigterm ∷ signals) = exited true

abbrev ends : Signal → Bool
ends sighup = false
ends sigint = true
ends sigterm = true

abbrev any_ends : List Signal → Bool
any_ends [] = false
any_ends (s ∷ ss) = if ends s then true else any_ends ss

-- The process ends by a signal exactly if SIGINT or SIGTERM is among those that came, and then it has
-- asked for the shutdown first.
pub handle_signals-ends :
    (signals : List Signal)
    → handle_signals signals ≡ (if any_ends signals then exited true else waiting)
unfolding handle_signals
handle_signals-ends [] = refl
handle_signals-ends (sighup ∷ signals) = handle_signals-ends signals
handle_signals-ends (sigint ∷ signals) = refl
handle_signals-ends (sigterm ∷ signals) = refl
