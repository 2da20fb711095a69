-- ===== src/CrowdSec/Loop/Once.antt =====
-- crowdsec.go: the loop reconciles once, at the first answer.
use open_blocklist.Base.{
  ℕ, zero, suc, ◌+◌, ◌<◌, ◌==◌, ==_iff, Bytes, codes, ◌++◌, Option, none, some, Bool, true, false,
  ◌≡◌, ◌⊎◌, inl, inr, refl, sym, ap, ◌∙◌, arith, Bool-cases, Option-cases, if◌then◌else◌,
}
use mathlib.Core.Option.{none-ne-some}
use open_blocklist.State.{App, Go}
use open_blocklist.CrowdSec.{Clock, DecisionStream, crowd_sec_apply_all}
use open_blocklist.CrowdSec.Remove.{crowd_sec_round, crowd_sec_reconcile, crowd_sec_remove_all}
use open_blocklist.CrowdSec.Loop.{
  Service, Transport, decisions_url, fetch_crowd_sec_decisions, crowd_sec_loop,
}

-- A sequence from its element `i` on.
abbrev pub from {ℓ} : {A : Type ℓ} → ℕ → (ℕ → A) → ℕ → A
from zero f = f
from (suc i) f = from i (λ k. f (suc k))

-- The service answers a request for an URL with status 200 and a body that is decoded to a stream.
abbrev pub Answers : Service → Transport → Bytes → DecisionStream → Type 0
Answers service transport url stream =
    (body : Bytes) × (transport.get_with_key url service.api_key ≡ some (200, body))
    × (transport.decode body ≡ some stream)

abbrev pub Fails : Service → Transport → Bytes → Type 0
Fails service transport url = (stream : DecisionStream) → Answers service transport url stream → ⊥

-- The URL that asks for all decisions, and the one that asks for changes.
abbrev pub all_url : Service → Bytes
all_url service = (service.lapi_url ++ codes "/v1/decisions/stream") ++ codes "?startup=true"

abbrev pub changes_url : Service → Bytes
changes_url service = service.lapi_url ++ codes "/v1/decisions/stream"

-- Rounds that ask for changes: one whose request fails changes nothing; the new decisions of an answer
-- are applied, then its deleted ones are removed.
pub data Follows (go : Go) (service : Service)
    : (ℕ → Transport) → (ℕ → ℕ → Clock) → ℕ → App → App → Type 0 where
  done :
      {transports : ℕ → Transport} {clocks : ℕ → ℕ → Clock} {app : App}
      → Follows go service transports clocks 0 app app
  failed :
      {transports : ℕ → Transport} {clocks : ℕ → ℕ → Clock} {n : ℕ} {app app' : App}
      → Fails service (transports 0) (changes_url service)
      → Follows go service (λ i. transports (suc i)) (λ i. clocks (suc i)) n app app'
      → Follows go service transports clocks (suc n) app app'
  changed :
      {transports : ℕ → Transport} {clocks : ℕ → ℕ → Clock} {n : ℕ} {app app' : App}
      (stream : DecisionStream)
      → Answers service (transports 0) (changes_url service) stream
      → Follows go service
          (λ i. transports (suc i))
          (λ i. clocks (suc i))
          n
          (crowd_sec_remove_all go stream.deleted
            (crowd_sec_apply_all go (clocks 0) stream.new app))
          app'
      → Follows go service transports clocks (suc n) app app'

answered_200 :
    (status : ℕ) (body : Bytes) (o : Option DecisionStream) (stream : DecisionStream)
    → (if status == 200 then o else none) ≡ some stream
    → (status ≡ 200) × (o ≡ some stream)
answered_200 status body o stream h = elim (Bool-cases (status == 200)) [
  | inl ok ↦ ((==_iff status 200).0 ok, sym (ap (λ b. if b then o else none) ok) ∙ h)
  | inr other ↦ absurd (none-ne-some stream (sym (ap (λ b. if b then o else none) other) ∙ h))
]

module _ (service : Service) (transport : Transport) where
  fetch-Answers :
      (startup : Bool) (stream : DecisionStream)
      → fetch_crowd_sec_decisions service transport startup ≡ some stream
      → Answers service transport (if startup then all_url service else changes_url service) stream
  unfolding fetch_crowd_sec_decisions decisions_url
  fetch-Answers startup stream h =
      elim (Option-cases (transport.get_with_key (decisions_url service startup) service.api_key)) [
        | inl nothing ↦ absurd (none-ne-some stream (rw nothing at h))
        | inr ((status, body), got) ↦
            let (ok, decoded) =
              answered_200 status body (transport.decode body) stream (rw got at h) in
            (body, got ∙ ap (λ n. some (n, body)) ok, decoded)
      ]

  fetch-Fails :
      (startup : Bool)
      → fetch_crowd_sec_decisions service transport startup ≡ none
      → Fails service transport (if startup then all_url service else changes_url service)
  unfolding fetch_crowd_sec_decisions decisions_url
  fetch-Fails startup h stream (body, got, decoded) =
      none-ne-some stream (sym h ∙ rw (got, decoded) refl)

-- No request for all decisions was answered in the rounds before `n`.
abbrev pub Unanswered : Service → (ℕ → Transport) → ℕ → Type 0
Unanswered service transports n = (i : ℕ) → i < n → Fails service (transports i) (all_url service)

later-Unanswered :
    (service : Service) (transports : ℕ → Transport) (n : ℕ)
    → Fails service (transports 0) (all_url service)
    → Unanswered service (λ i. transports (suc i)) n
    → Unanswered service transports (suc n)
later-Unanswered service transports n first h zero lt = first
later-Unanswered service transports n first h (suc i) lt = h i (omega (arith, lt))

module _ (go : Go) (service : Service) where
  loop-Follows :
      (transports : ℕ → Transport) (clocks : ℕ → ℕ → Clock) (n : ℕ) (app : App)
      → (app' : App) × (crowd_sec_loop go service transports clocks n (false, app) ≡ (false, app'))
        × Follows go service transports clocks n app app'
  unfolding crowd_sec_loop crowd_sec_round
  loop-Follows transports clocks zero app = (app, refl, done)
  loop-Follows transports clocks (suc n) app =
      elim (Option-cases (fetch_crowd_sec_decisions service (transports 0) false)) [
        | inl nothing ↦
            let (app', same, rest) =
              loop-Follows (λ i. transports (suc i)) (λ i. clocks (suc i)) n app in
            rw nothing (app', same, failed (fetch-Fails service (transports 0) false nothing) rest)
        | inr (stream, got) ↦
            let (app', same, rest) =
              loop-Follows (λ i. transports (suc i)) (λ i. clocks (suc i)) n
                (crowd_sec_remove_all go stream.deleted
                  (crowd_sec_apply_all go (clocks 0) stream.new app)) in
            rw got (
              app',
              same,
              changed stream (fetch-Answers service (transports 0) false stream got) rest,
            )
      ]

  -- After any number of rounds of crowdSecLoop from the start: either every request for all decisions,
  -- which is what was asked for in each round, failed, with a status other than 200, with a body that
  -- cannot be decoded or without an answer, and the process is as it was; or the first such request
  -- that was answered was reconciled, once, and every round behind it has asked for changes only, and
  -- applied those that it got, whatever requests failed in between.
  pub crowd_sec_loop-once :
      (transports : ℕ → Transport) (clocks : ℕ → ℕ → Clock) (n : ℕ) (app : App)
      → (Unanswered service transports n
          × (crowd_sec_loop go service transports clocks n (true, app) ≡ (true, app)))
        ⊎ ((i more : ℕ) × (stream : DecisionStream) × (app' : App) × (n ≡ suc i + more)
            × Unanswered service transports i
            × Answers service (transports i) (all_url service) stream
            × Follows go service
                (from (suc i) transports)
                (from (suc i) clocks)
                more
                (crowd_sec_reconcile go (clocks i) stream app)
                app'
            × (crowd_sec_loop go service transports clocks n (true, app) ≡ (false, app')))
  unfolding crowd_sec_loop crowd_sec_round
  crowd_sec_loop-once transports clocks zero app = inl (λ i lt. absurd (omega (arith, lt)), refl)
  crowd_sec_loop-once transports clocks (suc n) app =
      elim (Option-cases (fetch_crowd_sec_decisions service (transports 0) true)) [
        | inr (stream, first) ↦
            let (app', same, rest) =
              loop-Follows (λ i. transports (suc i)) (λ i. clocks (suc i)) n
                (crowd_sec_reconcile go (clocks 0) stream app) in
            inr (
              zero,
              n,
              stream,
              app',
              omega arith,
              (λ i lt. absurd (omega (arith, lt))),
              fetch-Answers service (transports 0) true stream first,
              rest,
              rw first same,
            )
        | inl first ↦
            let fails = fetch-Fails service (transports 0) true first in
            rw first
              (elim (crowd_sec_loop-once (λ i. transports (suc i)) (λ i. clocks (suc i)) n app) [
                | inl (un, same) ↦ inl (later-Unanswered service transports n fails un, same)
                | inr (i, more, stream, app', count, un, answer, rest, same) ↦ inr (
                  suc i,
                  more,
                  stream,
                  app',
                  omega (arith, count),
                  later-Unanswered service transports i fails un,
                  answer,
                  rest,
                  same,
                )
              ])
      ]
