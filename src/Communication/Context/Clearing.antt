-- ===== src/Communication/Context/Clearing.antt =====
-- core/communication/BeaconSendingContext.cxx: what clearing leaves, and when capturing goes on.
use mathlib.Core.Path.{subst}
use openkit_native.Prelude.{
  All, Bool, List, Option, [], arith, false, if◌then◌else◌, none, not, refl, some, sym, ◌&&◌, ◌∷◌,
  ◌≡◌,
}
use openkit_native.Caching.Cache.{Cache}
use openkit_native.Caching.Distinct.{Distinct, delete-Distinct, find-delete_none, find-delete_self}
use openkit_native.Caching.Entry.Bytes.{}
use openkit_native.Caching.Key.{find}
use openkit_native.Communication.Context.{
  Context, clear_all_session_data, clear_sessions, disable_capture, disable_capture_and_clear,
  is_application_id_mismatch, is_capture_on,
}
use openkit_native.Configuration.Server.{with_capture_state}
use openkit_native.Objects.Session.{Session, clear_captured_data}
use openkit_native.Protocol.Attributes.{merge}
use openkit_native.Protocol.StatusResponse.{StatusResponse, is_erroneous_response}
use openkit_native.Caching.Cache

abbrev pub HasNoData : Cache.Cache → Session → Type 0
HasNoData c s = find s.beacon_key c.beacons ≡ none

pub unfinished : List Session → List Session
unfinished [] = []
unfinished (s ∷ ss) = if s.is_session_finished then unfinished ss else s ∷ unfinished ss

clear_sessions-unfinished :
    (ss : List Session) (c : Cache.Cache) → (clear_sessions ss c).0 ≡ unfinished ss
unfolding clear_sessions unfinished
clear_sessions-unfinished [] c = refl
clear_sessions-unfinished (s ∷ ss) c =
    ground (arith, clear_sessions-unfinished ss (clear_captured_data s c))

clear_sessions-cache :
    (ss : List Session) (c : Cache.Cache) (s : Session)
    → (clear_sessions (s ∷ ss) c).1 ≡ (clear_sessions ss (clear_captured_data s c)).1
unfolding clear_sessions
clear_sessions-cache ss c s = ground arith

-- What is gone stays gone.
clear_sessions-still :
    (ss : List Session) (c : Cache.Cache) (s : Session)
    → HasNoData c s
    → HasNoData (clear_sessions ss c).1 s
clear_sessions-still [] c s h = unfold clear_sessions in h
clear_sessions-still (t ∷ ts) c s h = rw (clear_sessions-cache ts c t) (
    clear_sessions-still ts (clear_captured_data t c) s
      (unfold clear_captured_data in find-delete_none t.beacon_key c s.beacon_key h))

clear_sessions-HasNoData :
    (ss : List Session) (c : Cache.Cache)
    → Distinct c.beacons
    → All (HasNoData (clear_sessions ss c).1) ss
clear_sessions-HasNoData [] c d = tt
clear_sessions-HasNoData (s ∷ ss) c d =
    subst (λ d. All (HasNoData d) (s ∷ ss)) (sym (clear_sessions-cache ss c s))
      (
        clear_sessions-still ss (clear_captured_data s c) s
            (unfold clear_captured_data in find-delete_self s.beacon_key c d),
        clear_sessions-HasNoData ss (clear_captured_data s c)
            (unfold clear_captured_data in delete-Distinct s.beacon_key c d),
      )

-- If no key is twice in the cache, disabling and clearing turns capturing off, keeps exactly the
-- sessions that are not finished, and leaves no data of any session that there was.
pub disable_capture_and_clear-HasNoData :
    (c : Context)
    → Distinct c.cache.beacons
    → let d = disable_capture_and_clear c in
      (is_capture_on d ≡ false)
      × (d.sessions ≡ unfinished c.sessions)
      × All (HasNoData d.cache) c.sessions
unfolding disable_capture_and_clear clear_all_session_data disable_capture is_capture_on
    with_capture_state
disable_capture_and_clear-HasNoData c d = (
  refl,
  clear_sessions-unfinished c.sessions c.cache,
  clear_sessions-HasNoData c.sessions c.cache d,
)

-- The server wants data: its answer is no error, it says so, and it knows the application.
pub wants_data : Option StatusResponse → Context → Bool
wants_data none c = false
wants_data (some r) c =
    let merged = merge c.last_response_attributes r.response_attributes in
    not (is_erroneous_response r) && (merged.capture && not (is_application_id_mismatch merged c))
