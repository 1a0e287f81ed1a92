-- ===== src/Caching/Entry/Chunk.antt =====
-- core/caching/BeaconCacheEntry.cxx: what a chunk holds, and what is left after it was sent.
use openkit_native.Prelude.{
  All, Bool-cases, List, [], append-nil, append_assoc, arith, drop, false, if◌then◌else◌, inl, inr,
  leb, length, ltb, map, refl, suc, take, ℕ, ◌++◌, ◌∷◌, ◌≡◌, ◌≤◌,
}
use openkit_native.Text.{Utf8String, concatenate}
use openkit_native.Caching.Record.{Record, mark_for_sending}
use openkit_native.Caching.Entry.{chunkify_data_list, erase_marked}

-- A text counts no characters only where it has no bytes.
abbrev pub IsText : Utf8String → Type 0
IsText t = t.string_length ≡ 0 → t.bytes ≡ []

pub bytes-concatenate : (s t : Utf8String) → IsText t → (concatenate s t).bytes ≡ s.bytes ++ t.bytes
unfolding concatenate
bytes-concatenate s t h = elim (Bool-cases (ltb 0 t.string_length)) [
  | inl some_text ↦ rw some_text
  | inr no_text ↦ rw (no_text, h (ground arith), append-nil)
]

-- What a chunk carries of some records.
unfoldable pub payload : Utf8String → List Record → List ℕ
payload delimiter [] = []
payload delimiter (r ∷ rs) = delimiter.bytes ++ (r.text.bytes ++ payload delimiter rs)

-- How many of the records go into a chunk that has begun.
unfoldable pub fitting : ℕ → Utf8String → Utf8String → List Record → ℕ
fitting max_size delimiter chunk [] = 0
fitting max_size delimiter chunk (r ∷ rs) =
    let more = fitting max_size delimiter (concatenate (concatenate chunk delimiter) r.text) rs in
    if leb chunk.string_length max_size then suc more else 0

module _ (max_size : ℕ) (delimiter : Utf8String) where
  pub chunkify-full :
      (chunk : Utf8String) (rs : List Record)
      → leb chunk.string_length max_size ≡ false
      → chunkify_data_list max_size delimiter chunk rs ≡ (chunk, rs)
  unfolding chunkify_data_list
  chunkify-full chunk [] h = refl
  chunkify-full chunk (r ∷ rs) h = rw h

  -- Two loops, one after the other, act as one loop over both lists.
  pub chunkify-append :
      (chunk : Utf8String) (xs ys : List Record)
      → let first = chunkify_data_list max_size delimiter chunk xs in
        let second = chunkify_data_list max_size delimiter first.0 ys in
        chunkify_data_list max_size delimiter chunk (xs ++ ys) ≡ (second.0, first.1 ++ second.1)
  unfolding chunkify_data_list
  chunkify-append chunk [] ys = refl
  chunkify-append chunk (r ∷ rs) ys = elim (Bool-cases (leb chunk.string_length max_size)) [
    | inl open_chunk ↦
        rw open_chunk
          (rw (chunkify-append (concatenate (concatenate chunk delimiter) r.text) rs ys))
    | inr full ↦ rw full (rw (chunkify-full chunk ys full))
  ]

  pub fitting-le :
      (chunk : Utf8String) (rs : List Record) → fitting max_size delimiter chunk rs ≤ length rs
  unfolding fitting
  fitting-le chunk [] = omega arith
  fitting-le chunk (r ∷ rs) =
      ground (arith, fitting-le (concatenate (concatenate chunk delimiter) r.text) rs)

  -- The loop marks the records that fit, and no other.
  pub marks-chunkify :
      (chunk : Utf8String) (rs : List Record)
      → let n = fitting max_size delimiter chunk rs in
        (chunkify_data_list max_size delimiter chunk rs).1
        ≡ map mark_for_sending (take n rs) ++ drop n rs
  unfolding chunkify_data_list fitting
  marks-chunkify chunk [] = refl
  marks-chunkify chunk (r ∷ rs) = elim (Bool-cases (leb chunk.string_length max_size)) [
    | inl open_chunk ↦
        rw (open_chunk, marks-chunkify (concatenate (concatenate chunk delimiter) r.text) rs)
    | inr full ↦ rw full
  ]

  pub bytes-chunkify :
      IsText delimiter
      → (chunk : Utf8String) (rs : List Record) → All (λ r. IsText r.text) rs
      → (chunkify_data_list max_size delimiter chunk rs).0.bytes
        ≡ chunk.bytes ++ payload delimiter (take (fitting max_size delimiter chunk rs) rs)
  unfolding chunkify_data_list fitting payload
  bytes-chunkify d chunk [] h = rw append-nil
  bytes-chunkify d chunk (r ∷ rs) h = elim (Bool-cases (leb chunk.string_length max_size)) [
    | inl open_chunk ↦
        rw (open_chunk, bytes-chunkify d (concatenate (concatenate chunk delimiter) r.text) rs h.1)
          (rw
            (
              bytes-concatenate (concatenate chunk delimiter) r.text h.0,
              bytes-concatenate chunk delimiter d,
            )
            (simp append_assoc))
    | inr full ↦ rw (full, append-nil)
  ]

abbrev pub Unmarked : Record → Type 0
Unmarked r = r.marked_for_sending ≡ false

pub erase_marked-Unmarked : (rs : List Record) → All Unmarked rs → erase_marked rs ≡ rs
unfolding erase_marked
erase_marked-Unmarked [] h = refl
erase_marked-Unmarked (r ∷ rs) h = rw (h.0, erase_marked-Unmarked rs h.1)

pub erase_marked-append :
    (xs ys : List Record) → erase_marked (xs ++ ys) ≡ erase_marked xs ++ erase_marked ys
unfolding erase_marked
erase_marked-append [] ys = refl
erase_marked-append (r ∷ rs) ys = ground (arith, erase_marked-append rs ys)

pub erase_marked-mark : (rs : List Record) → erase_marked (map mark_for_sending rs) ≡ []
unfolding erase_marked mark_for_sending
erase_marked-mark [] = refl
erase_marked-mark (r ∷ rs) = erase_marked-mark rs
