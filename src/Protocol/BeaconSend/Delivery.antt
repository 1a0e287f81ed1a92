-- ===== src/Protocol/BeaconSend/Delivery.antt =====
-- protocol/Beacon.cxx: what has been sent, and what is left, when `Beacon::send` returns.
use openkit_native.Prelude.{
  Option, true, All, List, [], concat, false, length, some, ℕ, ◌++◌, ◌+◌, ◌<◌, ◌∷◌, ◌≡◌, ◌⊎◌,
}
use openkit_native.Text.{Utf8String}
use openkit_native.Caching.Key.{BeaconKey, find}
use openkit_native.Caching.Entry.Chunk.{IsText, Unmarked, payload}
use openkit_native.Caching.Entry.Round.{queue}
use openkit_native.Protocol.StatusResponse.{StatusResponse, is_successful}
use openkit_native.Protocol.BeaconSend.{Outcome, beacon_data_delimiter}
use openkit_native.Caching.Entry.{Entry}
use openkit_native.Caching.Record.{Record}
use openkit_native.Caching.Entry

-- What is being sent is not marked yet, and its texts are well formed.
abbrev pub IsReady : Entry.Entry → Type 0
IsReady e = All Unmarked (queue e) × All (λ r. IsText r.text) (queue e)

-- The answer of the server to each request is successful, and the request carries its prefix and one
-- group of records, which is not empty.
abbrev pub Carries :
    (ℕ → Utf8String)
    → (ℕ → Utf8String → Option StatusResponse)
    → ℕ
    → List Utf8String
    → List (List Record)
    → Type 0
Carries prefix respond i [] [] = Unit
Carries prefix respond i [] (g ∷ gs) = ⊥
Carries prefix respond i (c ∷ cs) [] = ⊥
Carries prefix respond i (c ∷ cs) (g ∷ gs) =
    (is_successful (respond i c) ≡ true)
    × (0 < length g)
    × (c.bytes ≡ (prefix i).bytes ++ payload beacon_data_delimiter g)
    × Carries prefix respond (i + 1) cs gs

-- Nothing is left to be sent, and what was collected stays.
pub record IsFinished (e left : Entry.Entry) (rest : List Record) : Type 0 where
  pub all_sent : rest ≡ []
  pub none_queued : queue left ≡ []
  pub events_kept : left.event_data ≡ e.event_data
  pub actions_kept : left.action_data ≡ e.action_data

-- The records that were not accepted are collected again, in front of what was collected.
pub record IsTakenBack (e left : Entry.Entry) (rest : List Record) : Type 0 where
  pub rest_events : List Record
  pub rest_actions : List Record
  pub parts : rest ≡ rest_events ++ rest_actions
  pub events_back : left.event_data ≡ rest_events ++ e.event_data
  pub actions_back : left.action_data ≡ rest_actions ++ e.action_data
  pub none_queued : queue left ≡ []

-- What went out from the i-th request on, by the answers of the server.
pub record IsDelivered (prefix : ℕ → Utf8String) (respond : ℕ → Utf8String → Option StatusResponse)
    (i : ℕ) (key : BeaconKey) (requests : List Utf8String) (e : Entry.Entry) (out : Outcome)
    : Type 0 where
  pub left : Entry.Entry
  pub found : find key out.cache.beacons ≡ some left
  pub accepted : List Utf8String
  pub groups : List (List Record)
  pub rest : List Record
  pub parts : concat groups ++ rest ≡ queue e
  pub carried : Carries prefix respond i accepted groups
  pub ended :
      ((out.requests ≡ requests ++ accepted) × IsFinished e left rest)
      ⊎ ((refused : Utf8String) × (out.requests ≡ requests ++ (accepted ++ refused ∷ []))
          × (out.response ≡ respond (i + length accepted) refused)
          × (is_successful out.response ≡ false)
          × IsTakenBack e left rest)
