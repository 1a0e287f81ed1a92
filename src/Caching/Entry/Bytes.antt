-- ===== src/Caching/Entry/Bytes.antt =====
-- core/caching/BeaconCacheEntry.cxx: what `mTotalNumBytes` counts.
use openkit_native.Prelude.{
  Bool-cases, List, [], add64, ap, arith, false, inl, inr, is_empty, map, refl, true, ℕ, ◌%◌, ◌++◌,
  ◌+◌, ◌^◌, ◌∙◌, ◌∷◌, ◌≡◌,
}
use openkit_native.Text.{Utf8String}
use openkit_native.Caching.Record.{Record, data_size_in_bytes, unset_sending}
use openkit_native.Caching.Entry.{
  Entry, add_action_data, add_event_data, copy_data_for_sending, get_chunk, has_data_to_send,
  remove_data_marked_for_sending, reset_data_marked_for_sending, unset_all,
}

unfoldable pub total_size : List Record → ℕ
total_size [] = 0
total_size (r ∷ rs) = data_size_in_bytes r + total_size rs

pub total_size-append :
    (xs ys : List Record) → total_size (xs ++ ys) ≡ total_size xs + total_size ys
unfolding total_size
total_size-append [] ys = omega arith
total_size-append (r ∷ rs) ys = omega (arith, total_size-append rs ys)

-- Clearing a mark keeps the size.
pub total_size-unset : (rs : List Record) → total_size (map unset_sending rs) ≡ total_size rs
unfolding total_size unset_sending data_size_in_bytes
total_size-unset [] = refl
total_size-unset (r ∷ rs) = ap (λ n. data_size_in_bytes r + n) (total_size-unset rs)

pub unset_all-eq :
    (n : ℕ) (rs : List Record)
    → unset_all (n % 2 ^ 64) rs ≡ ((n + total_size rs) % 2 ^ 64, map unset_sending rs)
unfolding unset_all total_size
unset_all-eq n [] = ap (λ (k : ℕ). (k, [])) (omega arith)
unset_all-eq n (r ∷ rs) =
    let e : add64 (n % 2 ^ 64) (data_size_in_bytes r) ≡ (n + data_size_in_bytes r) % 2 ^ 64 =
      unfold add64 in omega arith in
    rw (e, unset_all-eq (n + data_size_in_bytes r) rs)
      (ap (λ (k : ℕ). (k % 2 ^ 64, unset_sending r ∷ map unset_sending rs)) (omega arith))

-- The count of an entry is the size of what it has collected and does not send yet.
abbrev pub IsCounted : Entry → Type 0
IsCounted e = e.total_num_bytes ≡ (total_size e.event_data + total_size e.action_data) % 2 ^ 64

pub add_event_data-IsCounted :
    (r : Record) (e : Entry) → IsCounted e → IsCounted (add_event_data r e)
unfolding add_event_data add64 total_size
add_event_data-IsCounted r e h = rw total_size-append (omega arith)

pub add_action_data-IsCounted :
    (r : Record) (e : Entry) → IsCounted e → IsCounted (add_action_data r e)
unfolding add_action_data add64 total_size
add_action_data-IsCounted r e h = rw total_size-append (omega arith)

pub copy_data_for_sending-IsCounted : (e : Entry) → IsCounted (copy_data_for_sending e)
unfolding copy_data_for_sending total_size
copy_data_for_sending-IsCounted e = omega arith

unset_all-from_zero :
    (es rs : List Record)
    → (unset_all 0 es ≡ (total_size es % 2 ^ 64, map unset_sending es))
      × (unset_all (unset_all 0 es).0 rs
          ≡ ((total_size es + total_size rs) % 2 ^ 64, map unset_sending rs))
unset_all-from_zero es rs =
    let first : unset_all 0 es ≡ (total_size es % 2 ^ 64, map unset_sending es) =
      unset_all-eq 0 es ∙ ap (λ (k : ℕ). (k % 2 ^ 64, map unset_sending es)) (omega arith) in
    (first, rw first (unset_all-eq (total_size es) rs))

-- What was being sent stands in front of what was collected meanwhile, with its marks cleared, and
-- everything is counted again.
abbrev pub merged : Entry → Entry
merged e =
    let events = map unset_sending e.event_data_being_sent ++ e.event_data in
    let actions = map unset_sending e.action_data_being_sent ++ e.action_data in
    record {
      event_data = events;
      action_data = actions;
      event_data_being_sent = [];
      action_data_being_sent = [];
      total_num_bytes = (total_size events + total_size actions) % 2 ^ 64;
    }

is_empty-eq : (rs : List Record) → is_empty rs ≡ true → rs ≡ []
is_empty-eq [] h = refl
is_empty-eq (r ∷ rs) h = cc

pub not-has_data_to_send :
    (e : Entry)
    → has_data_to_send e ≡ false
    → (e.event_data_being_sent ≡ []) × (e.action_data_being_sent ≡ [])
unfolding has_data_to_send
not-has_data_to_send e h = (is_empty-eq _ (ground arith), is_empty-eq _ (ground arith))

merged_count :
    (e : Entry)
    → IsCounted e
    → add64 e.total_num_bytes
        ((total_size e.event_data_being_sent + total_size e.action_data_being_sent) % 2 ^ 64)
      ≡ (merged e).total_num_bytes
unfolding add64
merged_count e h =
    rw (total_size-append, total_size-append, total_size-unset, total_size-unset) (omega arith)

pub reset-merged : (e : Entry) → IsCounted e → reset_data_marked_for_sending e ≡ merged e
unfolding reset_data_marked_for_sending
reset-merged e h = elim (Bool-cases (has_data_to_send e)) [
  | inl sends ↦
      let (first, both) = unset_all-from_zero e.event_data_being_sent e.action_data_being_sent in
      rw (sends, both, first, merged_count e h)
  | inr idle ↦
      let (no_events, no_actions) = not-has_data_to_send e idle in
      rw idle (ground (arith, no_events, no_actions))
]

pub reset-IsCounted : (e : Entry) → IsCounted e → IsCounted (reset_data_marked_for_sending e)
reset-IsCounted e h = rw (reset-merged e h)

pub remove_marked-IsCounted :
    (e : Entry) → IsCounted e → IsCounted (remove_data_marked_for_sending e)
unfolding remove_data_marked_for_sending
remove_marked-IsCounted e h = ground arith

pub get_chunk-IsCounted :
    (prefix : Utf8String) (max_size : ℕ) (delimiter : Utf8String) (e : Entry)
    → IsCounted e
    → IsCounted (get_chunk prefix max_size delimiter e).1
unfolding get_chunk
get_chunk-IsCounted prefix max_size delimiter e h = ground arith
