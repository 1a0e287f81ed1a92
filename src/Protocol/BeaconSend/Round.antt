-- ===== src/Protocol/BeaconSend/Round.antt =====
-- protocol/Beacon.cxx: one round of the loop of `Beacon::send`, by the answer to its request.
use openkit_native.Prelude.{
  All-append_inv, All-drop, List, Option, [], ap, append-nil, append_assoc, arith, drop, false, inl,
  inr, is_empty, length, length-drop, length-take_pos, refl, sign_extend32, some, sym, take,
  take-append-drop, true, ℕ, ◌++◌, ◌+◌, ◌<◌, ◌||◌, ◌∙◌, ◌∷◌, ◌≡◌, ◌≤◌,
}
use openkit_native.Text.{Utf8String, is_empty_string}
use openkit_native.Caching.Key.{BeaconKey, find, find-put_self}
use openkit_native.Caching.Entry.Round.{
  bytes-get_chunk, chunk_count, chunk_count_pos, length-queue_pos, queue, queue-round, remove-keeps,
  reset-IsRestored,
}
use openkit_native.Protocol.StatusResponse.{StatusResponse, is_successful}
use openkit_native.Protocol.BeaconSend.{
  Outcome, beacon_data_delimiter, chunk_prefix, max_chunk_size,
}
use openkit_native.Caching.Cache.{
  Cache, get_next_beacon_chunk, has_data_for_sending, remove_chunked_data, reset_chunked_data,
  with_entry,
}
use openkit_native.Caching.Entry.{
  Entry, get_chunk, has_data_to_send, remove_data_marked_for_sending, reset_data_marked_for_sending,
}
use openkit_native.Caching.Entry.Bytes.{not-has_data_to_send}
use openkit_native.Caching.Entry.Chunk.{IsText, Unmarked, payload}
use openkit_native.Protocol.BeaconSend.Delivery.{IsDelivered, IsReady}
use openkit_native.Protocol.BeaconSend.Prefix.{
  IsFilled-IsText, chunk_prefix-IsFilled, delimiter-IsText, get_chunk-IsFilled, not_filled-empty,
}
use openkit_native.Caching.Entry
use openkit_native.Caching.Cache

pub idle-queue : (e : Entry.Entry) → Entry.has_data_to_send e ≡ false → queue e ≡ []
idle-queue e idle =
    let (no_events, no_actions) = not-has_data_to_send e idle in rw (no_events, no_actions)

module _ (key : BeaconKey) (immutable_data : Utf8String) (mutable_data : ℕ → Utf8String)
    (beacon_size : ℕ) where
  abbrev pub prefix : ℕ → Utf8String
  prefix i = chunk_prefix immutable_data mutable_data i

  abbrev pub limit : ℕ
  limit = sign_extend32 (max_chunk_size beacon_size)

  -- the entry, and the chunk, after the i-th request was built
  abbrev pub chunked : ℕ → Entry.Entry → Utf8String × Entry.Entry
  chunked i e = Entry.get_chunk (prefix i) limit beacon_data_delimiter e

  module _ (i : ℕ) (c : Cache.Cache) (e : Entry.Entry) (found : find key c.beacons ≡ some e) where
    pub next_chunk-eq :
        Cache.get_next_beacon_chunk key
          (prefix i)
          (max_chunk_size beacon_size)
          beacon_data_delimiter
          c
        ≡ ((chunked i e).0, Cache.with_entry key (chunked i e).1 c)
    unfolding Cache.get_next_beacon_chunk
    next_chunk-eq = rw (found, Cache.get_next_beacon_chunk)

    pub has_data-eq : Cache.has_data_for_sending key c ≡ Entry.has_data_to_send e
    unfolding Cache.has_data_for_sending
    has_data-eq = rw (found, Cache.has_data_for_sending)

    pub find-removed :
        find key (Cache.remove_chunked_data key c).beacons
        ≡ some (Entry.remove_data_marked_for_sending e)
    unfolding Cache.remove_chunked_data
    find-removed =
        rw (found, Cache.remove_chunked_data)
          (find-put_self key (Entry.remove_data_marked_for_sending e) c.beacons)

    pub find-reset :
        find key (Cache.reset_chunked_data key c).beacons
        ≡ some (Entry.reset_data_marked_for_sending e)
    unfolding Cache.reset_chunked_data
    find-reset =
        rw (found, Cache.reset_chunked_data)
          (find-put_self key (Entry.reset_data_marked_for_sending e) c.beacons)

  -- A request that is accepted takes a group of records off the queue.
  module _ (fits : (i : ℕ) → (prefix i).string_length ≤ limit) (i : ℕ) (e : Entry.Entry)
      (sends : Entry.has_data_to_send e ≡ true) (ready : IsReady e) where
    abbrev pub count : ℕ
    count = chunk_count (prefix i) limit beacon_data_delimiter e

    abbrev pub remaining : Entry.Entry
    remaining = Entry.remove_data_marked_for_sending (chunked i e).1

    pub queue-remaining : queue remaining ≡ drop count (queue e)
    queue-remaining = queue-round (prefix i) limit beacon_data_delimiter e sends ready.0

    count_pos : 0 < count
    count_pos = chunk_count_pos (prefix i) limit beacon_data_delimiter e sends (fits i)

    pub remaining-IsReady : IsReady remaining
    remaining-IsReady = rw queue-remaining (
      All-drop Unmarked count (queue e) ready.0,
      All-drop (λ r. IsText r.text) count (queue e) ready.1,
    )

    pub remaining-lt : length (queue remaining) < length (queue e)
    remaining-lt =
        rw queue-remaining
          (omega (arith, length-drop count (queue e), count_pos, length-queue_pos e sends))

    chunk-carries :
        (chunked i e).0.bytes
        ≡ (prefix i).bytes ++ payload beacon_data_delimiter (take count (queue e))
    chunk-carries =
        bytes-get_chunk (prefix i) limit beacon_data_delimiter e sends
          (IsFilled-IsText (prefix i) (chunk_prefix-IsFilled immutable_data mutable_data i))
          delimiter-IsText ready.1

    pub chunk-not_empty :
        (is_empty (chunked i e).0.bytes || is_empty_string (chunked i e).0) ≡ false
    chunk-not_empty = not_filled-empty (chunked i e).0 (
        get_chunk-IsFilled (prefix i) limit beacon_data_delimiter e sends
          (chunk_prefix-IsFilled immutable_data mutable_data i))

    pub accepted-IsDelivered :
        (respond : ℕ → Utf8String → Option StatusResponse)
        → is_successful (respond i (chunked i e).0) ≡ true
        → (requests : List Utf8String) (out : Outcome)
        → IsDelivered prefix respond (i + 1) key (requests ++ (chunked i e).0 ∷ []) remaining out
        → IsDelivered prefix respond i key requests e out
    accepted-IsDelivered respond ok requests out d =
        let kept = remove-keeps (prefix i) limit beacon_data_delimiter e in
        record {
          left = d.left;
          found = d.found;
          accepted = (chunked i e).0 ∷ d.accepted;
          groups = take count (queue e) ∷ d.groups;
          rest = d.rest;
          parts = rw (append_assoc, d.parts, queue-remaining) (take-append-drop count (queue e));
          carried = (
            ok,
            length-take_pos count (queue e) count_pos (length-queue_pos e sends),
            chunk-carries,
            d.carried,
          );
          ended = elim d.ended [
            | inl (made, f) ↦ inl (
              made ∙ (rw append_assoc),
              record {
                all_sent = f.all_sent;
                none_queued = f.none_queued;
                events_kept = f.events_kept ∙ kept.0;
                actions_kept = f.actions_kept ∙ kept.1;
              },
            )
            | inr (refused, made, answered, failed, b) ↦ inr (
              refused,
              made ∙ (rw append_assoc),
              answered ∙ ap (λ n. respond n refused) (omega arith),
              failed,
              record {
                rest_events = b.rest_events;
                rest_actions = b.rest_actions;
                parts = b.parts;
                events_back = b.events_back ∙ ap (λ l. b.rest_events ++ l) kept.0;
                actions_back = b.actions_back ∙ ap (λ l. b.rest_actions ++ l) kept.1;
                none_queued = b.none_queued;
              },
            )
          ];
        }

    pub refused-IsDelivered :
        (respond : ℕ → Utf8String → Option StatusResponse) (requests : List Utf8String)
        (c : Cache.Cache)
        → find key c.beacons ≡ some (Entry.reset_data_marked_for_sending (chunked i e).1)
        → is_successful (respond i (chunked i e).0) ≡ false
        → IsDelivered prefix respond i key requests e (record {
          response = respond i (chunked i e).0;
          cache = c;
          requests = requests ++ (chunked i e).0 ∷ [];
        })
    refused-IsDelivered respond requests c found failed =
        let (events, actions) = All-append_inv Unmarked _ _ ready.0 in
        let back = reset-IsRestored (prefix i) limit beacon_data_delimiter e events actions in
        record {
          left = Entry.reset_data_marked_for_sending (chunked i e).1;
          found = found;
          accepted = [];
          groups = [];
          rest = queue e;
          parts = refl;
          carried = tt;
          ended = inr (
            (chunked i e).0,
            refl,
            ap (λ n. respond n (chunked i e).0) (omega arith),
            failed,
            record {
              rest_events = e.event_data_being_sent;
              rest_actions = e.action_data_being_sent;
              parts = refl;
              events_back = back.events;
              actions_back = back.actions;
              none_queued = rw (back.no_events_being_sent, back.no_actions_being_sent);
            },
          );
        }

  pub finished-IsDelivered :
      (respond : ℕ → Utf8String → Option StatusResponse) (i : ℕ) (requests : List Utf8String)
      (response : Option StatusResponse) (c : Cache.Cache) (e : Entry.Entry)
      → find key c.beacons ≡ some e
      → queue e ≡ []
      → IsDelivered prefix respond i key requests e
          (record { response = response; cache = c; requests = requests })
  finished-IsDelivered respond i requests response c e found none_left = record {
    left = e;
    found = found;
    accepted = [];
    groups = [];
    rest = [];
    parts = sym none_left;
    carried = tt;
    ended = inl (
      rw append-nil,
      record { all_sent = refl; none_queued = none_left; events_kept = refl; actions_kept = refl },
    );
  }
