-- ===== src/Start/Wait.antt =====
-- etcd.go: the end of the wait for etcd.
use open_blocklist.Base.{
  ℕ, zero, suc, ◌+◌, ◌-◌, ◌*◌, ◌/◌, ◌≤◌, ◌<◌, ltb, Option, none, some, Bool, true, false, [], ◌∷◌,
  if◌then◌else◌, ◌≡◌, refl, subst, arith, Bool-cases, inl, inr,
}
use open_blocklist.Start.{
  second, retry_interval, Waited, available, gave_up, with_report, wait_rounds, wait_for_etcd,
}

-- So many rounds from one on without an answer.
unfoldable pub Silent : (ℕ → Bool) → ℕ → ℕ → Type 0
Silent probe from zero = Unit
Silent probe from (suc n) = (probe from ≡ false) × Silent probe (suc from) n

-- What an end of the wait says: etcd was found in the first round in which it answered, or it did not
-- answer in any round and the time is over.
abbrev pub IsEnd : (ℕ → Bool) → (ℕ → ℕ) → ℕ → ℕ → ℕ → Waited → Type 0
IsEnd probe clock start max_wait from (available i rs) =
    (n : ℕ) × (i ≡ from + n) × (probe i ≡ true) × Silent probe from n
IsEnd probe clock start max_wait from (gave_up i rs) =
    (n : ℕ) × (i ≡ from + n) × (max_wait < clock i - start) × Silent probe from (suc n)

module _ (probe : ℕ → Bool) (clock : ℕ → ℕ) (start max_wait : ℕ)
    (steps : (i : ℕ) → clock i + 2000000000 ≤ clock (suc i)) where
  IsEnd-report :
      (from seconds : ℕ) (b : Bool) (w : Waited)
      → IsEnd probe clock start max_wait from w
      → (w' : Waited) × (with_report b seconds (some w) ≡ some w')
        × IsEnd probe clock start max_wait from w'
  unfolding with_report
  IsEnd-report from s false w h = (w, refl, h)
  IsEnd-report from s true (available i rs) h = (available i (s ∷ rs), refl, h)
  IsEnd-report from s true (gave_up i rs) h = (gave_up i (s ∷ rs), refl, h)

  IsEnd-later :
      (from : ℕ) (w : Waited)
      → probe from ≡ false
      → IsEnd probe clock start max_wait (suc from) w
      → IsEnd probe clock start max_wait from w
  unfolding Silent
  IsEnd-later from (available i rs) h (n, at, answered, before) =
      (suc n, omega (arith, at), answered, (h, before))
  IsEnd-later from (gave_up i rs) h (n, at, over, before) =
      (suc n, omega (arith, at), over, (h, before))

  -- The wait has an end, which is right from this round on.
  abbrev Ends : ℕ → Option Waited → Type 0
  Ends i o = (w : Waited) × (o ≡ some w) × IsEnd probe clock start max_wait i w

  report-Ends :
      (i seconds : ℕ) (b : Bool) (o : Option Waited) → Ends i o → Ends i (with_report b seconds o)
  report-Ends i seconds b o (w, e, h) = rw e (IsEnd-report i seconds b w h)

  time-Ends :
      (i : ℕ) (rest : Option Waited)
      → probe i ≡ false
      → (ltb max_wait (clock i - start) ≡ false → Ends (suc i) rest)
      → Ends i (if ltb max_wait (clock i - start) then some (gave_up i []) else rest)
  time-Ends i rest silent later = elim (Bool-cases (ltb max_wait (clock i - start))) [
    | inl over ↦ rw over (
      gave_up i [],
      refl,
      (zero, omega arith, ground (arith, over), unfold Silent in (silent, tt)),
    )
    | inr more ↦ let (w, e, h) = later more in rw more (w, e, IsEnd-later i w silent h)
  ]

  answered_or :
      (i next_report : ℕ) (rest : Option Waited)
      → (probe i ≡ false → ltb max_wait (clock i - start) ≡ false → Ends (suc i) rest)
      → Ends i (
          if probe i
          then some (available i [])
          else with_report
              (ltb next_report (clock i))
              ((clock i - start) / second)
              (if ltb max_wait (clock i - start) then some (gave_up i []) else rest))
  answered_or i next rest later = elim (Bool-cases (probe i)) [
    | inl answered ↦
        rw answered (available i [], refl, (zero, omega arith, answered, unfold Silent in tt))
    | inr silent ↦
        rw silent (report-Ends i _ (ltb next (clock i)) _ (time-Ends i rest silent (later silent)))
  ]

  wait_rounds-Ends :
      (fuel i next_report : ℕ)
      → start ≤ clock i
      → max_wait < (clock i - start) + fuel * 2000000000
      → Ends i (wait_rounds probe clock start max_wait (suc fuel) i next_report)
  unfolding wait_rounds
  wait_rounds-Ends zero i next began h =
      answered_or i next none (λ silent more. absurd (ground (arith, h, more)))
  wait_rounds-Ends (suc fuel) i next began h = answered_or i next _ (λ silent more.
      wait_rounds-Ends fuel (suc i) _ (omega (arith, began, steps i))
        (omega (arith, began, h, steps i)))

-- If the clock does not stand before the start and each round takes at least the two seconds of its
-- sleep, then for every probe and timeout the wait ends, within two rounds more than the timeout
-- divided by two seconds: in the first round in which etcd answers, or, where etcd has not answered
-- in any round, in one in which the timeout is exceeded.
pub wait_for_etcd-ends :
    (probe : ℕ → Bool) (clock : ℕ → ℕ) (start max_wait : ℕ)
    → start ≤ clock 0
    → ((i : ℕ) → clock i + 2000000000 ≤ clock (suc i))
    → (w : Waited) × (wait_for_etcd probe clock start max_wait (max_wait / retry_interval + 2)
        ≡ some w)
      × IsEnd probe clock start max_wait 0 w
unfolding wait_for_etcd
wait_for_etcd-ends probe clock start max_wait began steps =
    subst
      (λ fuel.
        (w : Waited) × (wait_rounds probe clock start max_wait fuel 0 start ≡ some w)
        × IsEnd probe clock start max_wait 0 w)
      {x = suc (max_wait / 2000000000 + 1)} (omega arith)
      (wait_rounds-Ends probe clock start max_wait steps (max_wait / 2000000000 + 1) 0 start began
        (omega arith))
