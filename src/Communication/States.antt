-- ===== src/Communication/States.antt =====
-- core/communication: what the states share. A result of a state is none where the fuel of the initial
-- state's loop ran out, where a beacon's configuration would be read through a null pointer, or where
-- `Beacon::send` does not return.
use openkit_native.Prelude.{◌≡◌, Option, none, some, ℕ, ◌+◌}
use openkit_native.Communication.Context.{Context, Surroundings, remove_session}
use openkit_native.Objects.Session.{Session, clear_captured_data}
use openkit_native.Protocol.StatusResponse.{StatusResponse}
use openkit_native.Caching.Cache
pub mod Initial
pub mod CaptureOn
pub mod CaptureOff
pub mod Flush

abbrev pub initial_retry_sleep_time : ℕ
initial_retry_sleep_time = 1000

abbrev pub status_request_retries : ℕ
status_request_retries = 5

unfoldable pub retry_after_of : Option StatusResponse → ℕ
retry_after_of none = 0
retry_after_of (some r) = r.retry_after

-- What the loops give: the last answer and the context.
pub record Sent : Type 0 where
  pub answer : Option StatusResponse
  pub context : Context

module _ (w : Surroundings) where
  -- a session's beacon is sent
  unfoldable pub send_session : Session → Context → Option (Option StatusResponse × Context)
  send_session s c = elim (w.send_beacon c.requests s c.cache) [
    | none ↦ none
    | some r ↦ some (r.0, record c { cache = r.1; requests = c.requests + 1 })
  ]

  -- Every call of `Beacon::send` for the session returns.
  abbrev pub SendingReturns : Session → Type 0
  SendingReturns s =
      (n : ℕ) (cache : Cache.Cache)
      → (r : Option StatusResponse × Cache.Cache) × (w.send_beacon n s cache ≡ some r)

  unfoldable pub forget_session : Session → Context → Context
  forget_session s c =
      let removed = remove_session s c in
      record removed { cache = clear_captured_data s removed.cache }
