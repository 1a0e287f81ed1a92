-- ===== src/Text/Parts/Plain.antt =====
-- core/UTF8String.cxx: index, substring and split of texts of characters of one byte.
use openkit_native.Prelude.{
  All, List, [], ap, append_assoc, arith, drop, if-false, if-true, leb, length, length-append, map,
  refl, suc, sym, zero, ℕ, ◌&&◌, ◌++◌, ◌+◌, ◌<◌, ◌==◌, ◌∙◌, ◌∷◌, ◌≡◌, ◌≢◌,
}
use openkit_native.Text.{Utf8String}
use openkit_native.Text.Parts.{get_index_of, get_lines, index_at, index_from, put_before}
use openkit_native.Text.Validation.{get_byte_width_of_character, utf8_string}
use openkit_native.Text.Validation.Characters.{
  IsCharacter, character_bytes, one, text_bytes, utf8_string-characters,
}

-- A character of one byte.
abbrev pub IsPlain : ℕ → Type 0
IsPlain c = (0 < c) × (c < 128)

pub width-IsPlain : (c : ℕ) → IsPlain c → get_byte_width_of_character c ≡ 1
unfolding get_byte_width_of_character
width-IsPlain c h = ground arith

text_bytes-one : (cs : List ℕ) → text_bytes (map one cs) ≡ cs
unfolding text_bytes character_bytes
text_bytes-one [] = refl
text_bytes-one (c ∷ cs) = ap (λ l. c ∷ l) (text_bytes-one cs)

one-IsCharacter : (cs : List ℕ) → All IsPlain cs → All IsCharacter (map one cs)
unfolding IsCharacter
one-IsCharacter [] h = tt
one-IsCharacter (c ∷ cs) h = (h.0, one-IsCharacter cs h.1)

length-one : (cs : List ℕ) → length (map one cs) ≡ length cs
length-one [] = refl
length-one (c ∷ cs) = ap suc (length-one cs)

abbrev pub plain_string : List ℕ → Utf8String
plain_string cs = record { bytes = cs; string_length = length cs }

pub utf8_string-plain : (cs : List ℕ) → All IsPlain cs → utf8_string cs ≡ plain_string cs
utf8_string-plain cs h =
    ap utf8_string (sym (text_bytes-one cs))
    ∙ utf8_string-characters (map one cs) (one-IsCharacter cs h)
    ∙ (λ i. record { bytes = text_bytes-one cs i; string_length = length-one cs i })

-- The index of the first character that is looked for.
index_from-first :
    (c n i : ℕ) (before after : List ℕ)
    → IsPlain c
    → All IsPlain before
    → All (λ b. b ≢ c) before
    → length before < n
    → index_from c 0 n i (before ++ c ∷ after) ≡ index_at (i + length before)
unfolding index_from
index_from-first c zero i before after hc h k l = absurd (omega (arith, l))
index_from-first c (suc n) i [] after hc h k l =
    if-true {b = leb 0 i && (get_byte_width_of_character c == 1 && c == c)} _ _
      (ground (arith, width-IsPlain c hc))
    ∙ ap index_at (omega arith)
index_from-first c (suc n) i (b ∷ before) after hc h k l =
    if-false {b = leb 0 i && (get_byte_width_of_character b == 1 && b == c)} _ _
      (ground (arith, k.0))
    ∙ ap (λ w. index_from c 0 n (i + 1) (drop w (b ∷ before ++ c ∷ after))) (width-IsPlain b h.0)
    ∙ index_from-first c n (i + 1) before after hc h.1 k.1 (omega arith)
    ∙ ap index_at (omega arith)

-- A text without the delimiter is one part.
pub get_lines-append :
    (d : ℕ) (part rest : List ℕ)
    → All (λ b. b ≢ d) part
    → get_lines d (part ++ d ∷ rest) ≡ part ∷ get_lines d rest
unfolding get_lines put_before
get_lines-append d [] rest h = if-true {b = d == d} _ _ (ground arith)
get_lines-append d (b ∷ part) rest h =
    if-false {b = b == d} _ _ (ground (arith, h.0))
    ∙ ap (put_before b) (get_lines-append d part rest h.1)

pub get_lines-last :
    (d b : ℕ) (part : List ℕ)
    → All (λ x. x ≢ d) (b ∷ part)
    → get_lines d (b ∷ part) ≡ (b ∷ part) ∷ []
unfolding get_lines put_before
get_lines-last d b [] h = if-false {b = b == d} _ _ (ground (arith, h.0))
get_lines-last d b (x ∷ part) h =
    if-false {b = b == d} _ _ (ground (arith, h.0))
    ∙ ap (put_before b) (get_lines-last d x part h.1)

pub get_index_of-first :
    (c n : ℕ) (before after : List ℕ)
    → IsPlain c
    → All IsPlain before
    → All (λ b. b ≢ c) before
    → get_index_of (record { bytes = before ++ c ∷ after; string_length = n }) c 0
      ≡ index_at (length before)
unfolding get_index_of
get_index_of-first c n before after hc h k =
    ap (index_from c 0 (length (before ++ c ∷ after)) 0) (append_assoc before (c ∷ after) (0 ∷ []))
    ∙ index_from-first c (length (before ++ c ∷ after)) 0 before (after ++ 0 ∷ []) hc h k
        (omega (arith, length-append before (c ∷ after)))
    ∙ ap index_at (omega arith)
