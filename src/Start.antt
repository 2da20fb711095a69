-- ===== src/Start.antt =====
-- etcd.go and helpers.go: the loop that waits for etcd at the start, and the sleep that watches for a
-- shutdown. The clock is monotonic, in nanoseconds.
pub mod Wait
pub mod Launch
pub mod Signals
use open_blocklist.Base.{
  ℕ, zero, suc, ◌+◌, ◌-◌, ◌*◌, ◌/◌, ◌^◌, ltb, Option, none, some, Bool, true, false, List, [], ◌∷◌,
  if◌then◌else◌,
}

-- time.Second
abbrev pub second : ℕ
second = 10 ^ 9

abbrev pub retry_interval : ℕ
retry_interval = 2 * second

abbrev report_interval : ℕ
report_interval = 10 * second

-- How waitForEtcd ends: in the round of this number it found etcd, or it stopped the program; with
-- the elapsed seconds that it reported before.
pub data Waited : Type 0 where
  available : ℕ → List ℕ → Waited
  gave_up : ℕ → List ℕ → Waited

abbrev reported : ℕ → Waited → Waited
reported seconds (available i rs) = available i (seconds ∷ rs)
reported seconds (gave_up i rs) = gave_up i (seconds ∷ rs)

-- The report of a round, before what the rounds behind it do.
unfoldable pub with_report : Bool → ℕ → Option Waited → Option Waited
with_report report seconds none = none
with_report report seconds (some w) = some (if report then reported seconds w else w)

-- The rounds from the one with number `i`. `probe` says whether the GET of a round was answered with
-- 200, and `clock` reads the time after it; the fuel counts the rounds that are allowed.
module _ (probe : ℕ → Bool) (clock : ℕ → ℕ) (start max_wait : ℕ) where
  unfoldable pub wait_rounds : ℕ → ℕ → ℕ → Option Waited
  unfolding with_report
  wait_rounds zero i next_report = none
  wait_rounds (suc fuel) i next_report =
      let now = clock i in
      let report = ltb next_report now in
      let rest = wait_rounds fuel (suc i) (if report then now + report_interval else next_report) in
      if probe i
      then some (available i [])
      else with_report report ((now - start) / second)
          (if ltb max_wait (now - start) then some (gave_up i []) else rest)

-- waitForEtcd
unfoldable pub wait_for_etcd : (ℕ → Bool) → (ℕ → ℕ) → ℕ → ℕ → ℕ → Option Waited
unfolding wait_rounds
wait_for_etcd probe clock start max_wait fuel = wait_rounds probe clock start max_wait fuel 0 start

-- sleepWithShutdownCheck; `requested` reads gShutdownRequested in each round.
unfoldable pub sleep_with_shutdown_check : (ℕ → Bool) → ℕ → ℕ → Bool
sleep_with_shutdown_check requested zero i = false
sleep_with_shutdown_check requested (suc n) i =
    let rest = sleep_with_shutdown_check requested n (suc i) in if requested i then true else rest
