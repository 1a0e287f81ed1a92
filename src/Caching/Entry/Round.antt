-- ===== src/Caching/Entry/Round.antt =====
-- core/caching/BeaconCacheEntry.cxx: one round of a send, in which `getChunk` is followed by
-- `removeDataMarkedForSending` or by another `getChunk`.
use openkit_native.Prelude.{
  length-drop, All, All-append_inv, All-drop, Bool-cases, List, [], add64, ap, arith, drop, false,
  inl, inr, leb, length, length-append, map, refl, take, true, ℕ, ◌++◌, ◌<◌, ◌∙◌, ◌∷◌, ◌≡◌, ◌≤◌,
}
use openkit_native.Text.{Utf8String, concatenate, empty_string}
use openkit_native.Caching.Record.{Record, data_size_in_bytes, mark_for_sending, unset_sending}
use openkit_native.Caching.Entry.{
  Entry, chunkify_data_list, erase_marked, get_chunk, has_data_to_send,
  remove_data_marked_for_sending, reset_data_marked_for_sending, unset_all,
}
use openkit_native.Caching.Entry.Chunk.{
  IsText, Unmarked, bytes-chunkify, bytes-concatenate, chunkify-append, chunkify-full,
  erase_marked-Unmarked, erase_marked-append, erase_marked-mark, fitting, marks-chunkify, payload,
}
use openkit_native.Caching.Entry.Bytes.{not-has_data_to_send}

-- What is being sent, in the order in which it goes out.
abbrev pub queue : Entry → List Record
queue e = e.event_data_being_sent ++ e.action_data_being_sent

pub start_chunk : Utf8String → Utf8String
start_chunk prefix = concatenate empty_string prefix

start_chunk_length :
    (prefix : Utf8String) → (start_chunk prefix).string_length ≡ prefix.string_length
unfolding start_chunk concatenate
start_chunk_length prefix = ground arith

pub length-queue_pos : (e : Entry) → has_data_to_send e ≡ true → 0 < length (queue e)
unfolding has_data_to_send
length-queue_pos e h =
    ground (arith, length-append e.event_data_being_sent e.action_data_being_sent)

fitting_pos :
    (max_size : ℕ) (delimiter chunk : Utf8String) (rs : List Record)
    → 0 < length rs
    → chunk.string_length ≤ max_size
    → 0 < fitting max_size delimiter chunk rs
unfolding fitting
fitting_pos max_size delimiter chunk [] some_data fits = some_data
fitting_pos max_size delimiter chunk (r ∷ rs) some_data fits = ground arith

pub remove-erase :
    (e : Entry)
    → remove_data_marked_for_sending e ≡ record e {
      event_data_being_sent = erase_marked e.event_data_being_sent;
      action_data_being_sent = erase_marked e.action_data_being_sent;
    }
unfolding remove_data_marked_for_sending erase_marked
remove-erase e = elim (Bool-cases (has_data_to_send e)) [
  | inl sends ↦ rw sends
  | inr idle ↦
      let (no_events, no_actions) = not-has_data_to_send e idle in
      rw idle (ground (arith, no_events, no_actions))
]

length-erase_marked : (rs : List Record) → length (erase_marked rs) ≤ length rs
unfolding erase_marked
length-erase_marked [] = omega arith
length-erase_marked (r ∷ rs) = ground (arith, length-erase_marked rs)

module _ (prefix : Utf8String) (max_size : ℕ) (delimiter : Utf8String) (e : Entry) where
  -- How many records the next chunk takes.
  pub chunk_count : ℕ
  chunk_count = fitting max_size delimiter (start_chunk prefix) (queue e)

  chunk_of_queue :
      has_data_to_send e ≡ true
      → let whole = chunkify_data_list max_size delimiter (start_chunk prefix) (queue e) in
        let got = get_chunk prefix max_size delimiter e in
        (got.0 ≡ whole.0) × (queue got.1 ≡ whole.1)
  unfolding get_chunk start_chunk
  chunk_of_queue h = rw (h, chunkify-append) (refl, refl)

  pub queue-get_chunk :
      has_data_to_send e ≡ true
      → queue (get_chunk prefix max_size delimiter e).1
        ≡ map mark_for_sending (take chunk_count (queue e)) ++ drop chunk_count (queue e)
  unfolding chunk_count
  queue-get_chunk h = (chunk_of_queue h).1 ∙ marks-chunkify max_size delimiter _ _

  -- Where there is data to send and none of it was marked before, a chunk followed by the removal of
  -- marked data takes exactly the records that the chunk carried off the front of what is being sent.
  pub queue-round :
      has_data_to_send e ≡ true
      → All Unmarked (queue e)
      → queue (remove_data_marked_for_sending (get_chunk prefix max_size delimiter e).1)
        ≡ drop chunk_count (queue e)
  queue-round h unmarked =
      rw
        (
          remove-erase (get_chunk prefix max_size delimiter e).1,
          ← erase_marked-append,
          queue-get_chunk h,
          erase_marked-append,
          erase_marked-mark,
        )
        (erase_marked-Unmarked _ (All-drop Unmarked chunk_count (queue e) unmarked))

  -- Where there is data to send, and a text that holds no characters has no bytes in the prefix, the
  -- delimiter and the records, the bytes of a chunk are the prefix and, for each record that fits, the
  -- delimiter and its text.
  pub bytes-get_chunk :
      has_data_to_send e ≡ true
      → IsText prefix
      → IsText delimiter
      → All (λ r. IsText r.text) (queue e)
      → (get_chunk prefix max_size delimiter e).0.bytes
        ≡ prefix.bytes ++ payload delimiter (take chunk_count (queue e))
  unfolding chunk_count
  bytes-get_chunk h p d texts =
      rw
        (
          (chunk_of_queue h).0,
          bytes-chunkify max_size delimiter d (start_chunk prefix) (queue e) texts,
        )
        (ap (λ l. l ++ payload delimiter (take chunk_count (queue e)))
          (unfold start_chunk in bytes-concatenate empty_string prefix p))

  -- A chunk whose prefix is not too long takes at least one record.
  pub chunk_count_pos :
      has_data_to_send e ≡ true → prefix.string_length ≤ max_size → 0 < chunk_count
  unfolding chunk_count
  chunk_count_pos h fits =
      fitting_pos max_size delimiter (start_chunk prefix) (queue e) (length-queue_pos e h)
        (rw start_chunk_length fits)

  -- Then the removal of marked data leaves less to be sent, whatever was marked before.
  pub length-queue_round :
      has_data_to_send e ≡ true
      → prefix.string_length ≤ max_size
      → length (queue (remove_data_marked_for_sending (get_chunk prefix max_size delimiter e).1))
        < length (queue e)
  length-queue_round h fits =
      rw
        (
          remove-erase (get_chunk prefix max_size delimiter e).1,
          ← erase_marked-append,
          queue-get_chunk h,
          erase_marked-append,
          erase_marked-mark,
        )
        (omega (
          arith,
          length-erase_marked (drop chunk_count (queue e)),
          length-drop chunk_count (queue e),
          chunk_count_pos h fits,
          length-queue_pos e h,
        ))

unset-Unmarked : (rs : List Record) → All Unmarked rs → map unset_sending rs ≡ rs
unfolding unset_sending
unset-Unmarked [] h = refl
unset-Unmarked (r ∷ rs) h = ground (arith, h.0, unset-Unmarked rs h.1)

unset-chunkify :
    (max_size : ℕ) (delimiter chunk : Utf8String) (rs : List Record)
    → map unset_sending (chunkify_data_list max_size delimiter chunk rs).1 ≡ map unset_sending rs
unfolding chunkify_data_list unset_sending mark_for_sending
unset-chunkify max_size delimiter chunk [] = refl
unset-chunkify max_size delimiter chunk (r ∷ rs) =
    ground (
      arith,
      unset-chunkify max_size delimiter (concatenate (concatenate chunk delimiter) r.text) rs,
    )

unset_all-map : (n : ℕ) (rs : List Record) → (unset_all n rs).1 ≡ map unset_sending rs
unfolding unset_all
unset_all-map n [] = refl
unset_all-map n (r ∷ rs) = rw (unset_all-map (add64 n (data_size_in_bytes r)) rs)

-- What is collected stays behind what is restored.
pub record IsRestored (e e' : Entry) : Type 0 where
  pub events : e'.event_data ≡ e.event_data_being_sent ++ e.event_data
  pub actions : e'.action_data ≡ e.action_data_being_sent ++ e.action_data
  pub no_events_being_sent : e'.event_data_being_sent ≡ []
  pub no_actions_being_sent : e'.action_data_being_sent ≡ []

pub reset-restores_own :
    (e : Entry)
    → let e' = reset_data_marked_for_sending e in
      (e'.event_data ≡ map unset_sending e.event_data_being_sent ++ e.event_data)
      × (e'.action_data ≡ map unset_sending e.action_data_being_sent ++ e.action_data)
      × (e'.event_data_being_sent ≡ [])
      × (e'.action_data_being_sent ≡ [])
unfolding reset_data_marked_for_sending
reset-restores_own e = elim (Bool-cases (has_data_to_send e)) [
  | inl sends ↦ rw (sends, unset_all-map, unset_all-map) (refl, refl, refl, refl)
  | inr idle ↦
      let (no_events, no_actions) = not-has_data_to_send e idle in
      rw (idle, no_events, no_actions) (refl, refl, refl, refl)
]

get_chunk-keeps :
    (p : Utf8String) (m : ℕ) (d : Utf8String) (e : Entry)
    → let e' = (get_chunk p m d e).1 in
      (e'.event_data ≡ e.event_data)
      × (e'.action_data ≡ e.action_data)
      × (map unset_sending e'.event_data_being_sent ≡ map unset_sending e.event_data_being_sent)
      × (map unset_sending e'.action_data_being_sent ≡ map unset_sending e.action_data_being_sent)
unfolding get_chunk
get_chunk-keeps p m d e = elim (Bool-cases (has_data_to_send e)) [
  | inl sends ↦ rw sends (refl, refl, unset-chunkify m d _ _, unset-chunkify m d _ _)
  | inr idle ↦ rw idle (refl, refl, refl, refl)
]

-- After a chunk that could not be sent everything is collected again, in its old order.
pub reset-IsRestored :
    (p : Utf8String) (m : ℕ) (d : Utf8String) (e : Entry)
    → All Unmarked e.event_data_being_sent
    → All Unmarked e.action_data_being_sent
    → IsRestored e (reset_data_marked_for_sending (get_chunk p m d e).1)
reset-IsRestored p m d e events actions =
    let own = reset-restores_own (get_chunk p m d e).1 in
    let kept = get_chunk-keeps p m d e in
    record {
      events = rw (own.0, kept.2, kept.0, unset-Unmarked _ events);
      actions = rw (own.1, kept.3, kept.1, unset-Unmarked _ actions);
      no_events_being_sent = own.2;
      no_actions_being_sent = own.3;
    }

-- A round leaves what is collected alone.
pub remove-keeps :
    (p : Utf8String) (m : ℕ) (d : Utf8String) (e : Entry)
    → let e' = remove_data_marked_for_sending (get_chunk p m d e).1 in
      (e'.event_data ≡ e.event_data) × (e'.action_data ≡ e.action_data)
remove-keeps p m d e = let kept = get_chunk-keeps p m d e in rw remove-erase (kept.0, kept.1)

-- A chunk whose prefix is too long takes no record.
pub get_chunk-too_long :
    (p : Utf8String) (m : ℕ) (d : Utf8String) (e : Entry)
    → m < p.string_length
    → has_data_to_send e ≡ true
    → ((get_chunk p m d e).0 ≡ start_chunk p) × ((get_chunk p m d e).1 ≡ e)
unfolding get_chunk start_chunk
get_chunk-too_long p m d e long sends =
    let long_start : m < (start_chunk p).string_length = rw start_chunk_length long in
    let full : leb (start_chunk p).string_length m ≡ false = ground arith in
    rw
      (
        sends,
        chunkify-full m d (start_chunk p) e.event_data_being_sent full,
        chunkify-full m d (start_chunk p) e.action_data_being_sent full,
      )
      (refl, refl)

pub remove-Unmarked : (e : Entry) → All Unmarked (queue e) → remove_data_marked_for_sending e ≡ e
remove-Unmarked e unmarked =
    let (events, actions) = All-append_inv Unmarked _ _ unmarked in
    rw (remove-erase e, erase_marked-Unmarked _ events, erase_marked-Unmarked _ actions)
