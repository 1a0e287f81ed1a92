-- ===== src/Protocol/BeaconSend/Prefix.antt =====
-- protocol/Beacon.cxx: a chunk is never empty, since its prefix holds the delimiter.
use openkit_native.Prelude.{
  Bool-cases, List, [], arith, false, inl, inr, is_empty, is_empty-append, leb, refl, true, ℕ, ◌++◌,
  ◌<◌, ◌||◌, ◌∷◌, ◌≡◌,
}
use openkit_native.Text.{Utf8String, concatenate, is_empty_string}
use openkit_native.Caching.Entry.Chunk.{IsText}
use openkit_native.Protocol.BeaconSend.{beacon_data_delimiter, chunk_prefix}
use openkit_native.Caching.Entry.{Entry, chunkify_data_list, get_chunk, has_data_to_send}
use openkit_native.Caching.Record.{Record}
use openkit_native.Caching.Entry

-- A text with bytes and characters.
abbrev pub IsFilled : Utf8String → Type 0
IsFilled s = (is_empty s.bytes ≡ false) × (0 < s.string_length)

concatenate-IsFilled : (s t : Utf8String) → IsFilled s → IsFilled (concatenate s t)
unfolding concatenate
concatenate-IsFilled s t h = ground (arith, is_empty-append s.bytes t.bytes h.0)

pub IsFilled-IsText : (s : Utf8String) → IsFilled s → IsText s
IsFilled-IsText s h e = absurd (omega arith)

chunkify-IsFilled :
    (m : ℕ) (d chunk : Utf8String) (rs : List Record)
    → IsFilled chunk
    → IsFilled (Entry.chunkify_data_list m d chunk rs).0
unfolding Entry.chunkify_data_list
chunkify-IsFilled m d chunk [] h = h
chunkify-IsFilled m d chunk (r ∷ rs) h = elim (Bool-cases (leb chunk.string_length m)) [
  | inl room ↦ rw room (
      chunkify-IsFilled m d (concatenate (concatenate chunk d) r.text) rs
        (concatenate-IsFilled _ r.text (concatenate-IsFilled chunk d h)))
  | inr full ↦ rw full h
]

pub get_chunk-IsFilled :
    (p : Utf8String) (m : ℕ) (d : Utf8String) (e : Entry.Entry)
    → Entry.has_data_to_send e ≡ true
    → IsFilled p
    → IsFilled (Entry.get_chunk p m d e).0
unfolding Entry.get_chunk concatenate
get_chunk-IsFilled p m d e sends h =
    rw sends (chunkify-IsFilled m d _ _ (chunkify-IsFilled m d _ _ (ground arith)))

pub not_filled-empty :
    (s : Utf8String) → IsFilled s → (is_empty s.bytes || is_empty_string s) ≡ false
unfolding is_empty_string
not_filled-empty s h = ground arith

pub delimiter-IsText : IsText beacon_data_delimiter
delimiter-IsText e = absurd (omega arith)

not_empty_last : (xs : List ℕ) → is_empty (xs ++ b'&' ∷ []) ≡ false
not_empty_last [] = refl
not_empty_last (x ∷ xs) = refl

module _ (immutable_data : Utf8String) (mutable_data : ℕ → Utf8String) where
  pub chunk_prefix-IsFilled : (i : ℕ) → IsFilled (chunk_prefix immutable_data mutable_data i)
  unfolding chunk_prefix
  chunk_prefix-IsFilled i =
      concatenate-IsFilled _ (mutable_data i)
        (unfold concatenate in (not_empty_last immutable_data.bytes, omega arith))
