-- ===== src/CrowdSec/Loop.antt =====
-- crowdsec.go: the requests to the service, and the loop over its answers. The exchange of a request
-- and the decoding of JSON are arguments.
pub mod Once
use open_blocklist.Base.{
  ℕ, zero, suc, ◌==◌, Bytes, codes, Option, none, Bool, ◌++◌, ◌>>=◌, if◌then◌else◌,
}
use open_blocklist.State.{App, Go}
use open_blocklist.CrowdSec.{Clock, DecisionStream}
use open_blocklist.CrowdSec.Remove.{crowd_sec_round}

-- The URL of the service and the key that is sent to it.
pub record Service : Type 0 where
  pub lapi_url : Bytes
  pub api_key : Bytes

-- A GET with the header X-Api-Key: the status and the body of the answer, or `none`; and
-- json.Decoder.Decode.
pub record Transport : Type 0 where
  pub get_with_key : Bytes → Bytes → Option (ℕ × Bytes)
  pub decode : Bytes → Option DecisionStream

unfoldable pub decisions_url : Service → Bool → Bytes
decisions_url service startup =
    let url = service.lapi_url ++ codes "/v1/decisions/stream" in
    if startup then url ++ codes "?startup=true" else url

-- fetchCrowdSecDecisions
unfoldable pub fetch_crowd_sec_decisions : Service → Transport → Bool → Option DecisionStream
unfolding decisions_url
fetch_crowd_sec_decisions service transport startup = do
  (status, body) ← transport.get_with_key (decisions_url service startup) service.api_key
  if status == 200 then transport.decode body else none

-- The state of crowdSecLoop: `startup`, and the process.
abbrev pub LoopState : Type 0
LoopState = Bool × App

-- The first rounds of crowdSecLoop; round `i` exchanges its request by `transports i`, and reads the
-- clock by `clocks i`.
unfoldable pub crowd_sec_loop :
    Go → Service → (ℕ → Transport) → (ℕ → ℕ → Clock) → ℕ → LoopState → LoopState
unfolding fetch_crowd_sec_decisions crowd_sec_round
crowd_sec_loop go service transports clocks zero s = s
crowd_sec_loop go service transports clocks (suc n) (startup, app) =
    crowd_sec_loop go service (λ i. transports (suc i)) (λ i. clocks (suc i)) n
      (crowd_sec_round go (clocks 0) (fetch_crowd_sec_decisions service (transports 0) startup)
        startup app)
