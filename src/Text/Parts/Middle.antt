-- ===== src/Text/Parts/Middle.antt =====
-- core/UTF8String.cxx: the substring of a text of characters of one byte.
use mathlib.Core.Path.{subst}
use openkit_native.Prelude.{
  All, List, Option, [], ap, append-nil, arith, drop, if-false, if-true, if◌then◌else◌, leb, length,
  length-append, ltb, none, not, refl, some, sub64, suc, sym, take, ℕ, ◌&&◌, ◌++◌, ◌+◌, ◌-◌, ◌<◌,
  ◌==◌, ◌^◌, ◌||◌, ◌∙◌, ◌∷◌, ◌≡◌, ◌≤◌,
}
use openkit_native.Text.Parts.{Cut, cut_bytes, cut_loop, go_past_character, npos, substring}
use openkit_native.Text.Parts.Plain.{IsPlain, plain_string, width-IsPlain}
use openkit_native.Text.{Utf8String}

-- The loop's variables at a place: bytes and characters are counted alike.
abbrev cut_at : (p first last taken : ℕ) → Cut
cut_at p first last taken = record {
  byte_index = p;
  byte_offset_start = first;
  byte_offset_end = last;
  character_index = p;
  character_counter = taken;
}

module _ (start wanted : ℕ) where
  -- one round at a character of one byte
  cut_loop-round :
      (fuel : ℕ) (x : ℕ) (xs : List ℕ) (p first last taken first' taken' : ℕ)
      → IsPlain x
      → p + 1 < 2 ^ 64
      → taken < wanted
      → (if p == start then p else first) ≡ first'
      → (if leb start p then taken + 1 else taken) ≡ taken'
      → cut_loop start wanted (suc fuel) (x ∷ xs) (cut_at p first last taken)
        ≡ cut_loop start wanted fuel xs (cut_at (p + 1) first' p taken')
  unfolding cut_loop go_past_character
  cut_loop-round fuel x xs p first last taken first' taken' h b k e1 e2 =
      if-true {b = ltb taken wanted} _ _ (ground arith)
      ∙ ap
          (λ w.
            cut_loop start wanted fuel (drop w (x ∷ xs))
              (go_past_character start w (cut_at p first last taken)))
          (width-IsPlain x h)
      ∙ (λ i. cut_loop start wanted fuel xs (cut_at (p + 1) (e1 i) (before_next i) (e2 i)))
    where
      before_next : sub64 (p + 1) 1 ≡ p
      before_next = unfold sub64 in omega arith

  -- the characters before the start
  cut_loop-skip :
      (xs ys : List ℕ) (p q last : ℕ)
      → All IsPlain xs
      → q ≡ p + length xs
      → q < 2 ^ 64
      → q ≤ start
      → 0 < wanted
      → (last' : ℕ) × (cut_loop start wanted (length (xs ++ ys)) (xs ++ ys) (cut_at p 0 last 0)
          ≡ cut_loop start wanted (length ys) ys (cut_at q 0 last' 0))
  cut_loop-skip [] ys p q last h e b s w =
      (last, ap (λ t. cut_loop start wanted (length ys) ys (cut_at t 0 last 0)) (omega arith))
  cut_loop-skip (x ∷ xs) ys p q last h e b s w =
      let (last', rest) = cut_loop-skip xs ys (p + 1) q p h.1 (omega arith) b s w in
      (
        last',
        cut_loop-round (length (xs ++ ys)) x (xs ++ ys) p 0 last 0 0 0 h.0 (omega arith) w
              (if-false {b = p == start} _ _ (ground arith))
              (if-false {b = leb start p} _ _ (ground arith))
            ∙ rest,
      )

  -- the characters after the first one that is taken
  cut_loop-take :
      (xs ys : List ℕ) (p p' q q' first taken taken' : ℕ)
      → All IsPlain xs
      → p' ≡ p + 1
      → q' ≡ q + 1
      → q ≡ p + length xs
      → taken' ≡ taken + length xs
      → q' < 2 ^ 64
      → start ≤ p
      → taken' ≤ wanted
      → cut_loop start wanted (length (xs ++ ys)) (xs ++ ys) (cut_at p' first p taken)
        ≡ cut_loop start wanted (length ys) ys (cut_at q' first q taken')
  cut_loop-take [] ys p p' q q' first taken taken' h e1 e2 e3 e4 b s w =
      (λ i. cut_loop start wanted (length ys) ys (cut_at (same' i) first (same i) (all i)))
    where
      same : p ≡ q
      same = omega arith

      same' : p' ≡ q'
      same' = omega arith

      all : taken ≡ taken'
      all = omega arith
  cut_loop-take (x ∷ xs) ys p p' q q' first taken taken' h e1 e2 e3 e4 b s w =
      cut_loop-round (length (xs ++ ys)) x (xs ++ ys) p' first p taken first (taken + 1) h.0
        (omega arith) (omega arith) (if-false {b = p' == start} _ _ (ground arith))
        (if-true {b = leb start p'} _ _ (ground arith))
      ∙ cut_loop-take xs ys p' (p' + 1) q q' first (taken + 1) taken' h.1 refl e2 (omega arith)
          (omega arith) b (omega arith) w

drop-append : (xs ys : List ℕ) → drop (length xs) (xs ++ ys) ≡ ys
drop-append [] ys = refl
drop-append (x ∷ xs) ys = drop-append xs ys

take-append : (xs ys : List ℕ) → take (length xs) (xs ++ ys) ≡ xs
take-append [] ys = refl
take-append (x ∷ xs) ys = ap (λ l. x ∷ l) (take-append xs ys)

size_of : (m n : ℕ) → m + n + 1 - m ≡ suc n
size_of m n = omega arith

cut_bytes-middle :
    (before body after : List ℕ) (x q : ℕ)
    → length (before ++ (x ∷ (body ++ after))) < 2 ^ 64
    → cut_bytes
        (before ++ (x ∷ (body ++ after)))
        (cut_at q (length before) (length before + length body) (length (x ∷ body)))
      ≡ plain_string (x ∷ body)
unfolding cut_bytes
cut_bytes-middle before body after x q b =
    let l1 = length-append before (x ∷ (body ++ after)) in
    let l2 = length-append (x ∷ body) after in
    let text = before ++ (x ∷ (body ++ after)) in
    if-true
      {b = not (length before == npos)
        && (leb (length before) (length before + length body)
            && ltb (length before + length body) (length text))}
      _ _ (ground (arith, l1, l2))
    ∙ (λ i. record { bytes = part i; string_length = length (x ∷ body) })
  where
    part :
        take
          (length before + length body + 1 - length before)
          (drop (length before) (before ++ (x ∷ (body ++ after))))
        ≡ x ∷ body
    part =
        ap (λ m. take m (drop (length before) (before ++ (x ∷ (body ++ after)))))
          (size_of (length before) (length body))
        ∙ ap (take (length (x ∷ body))) (drop-append before (x ∷ (body ++ after)))
        ∙ take-append (x ∷ body) after

-- The part between two other parts of a text, if the loop stops behind it.
substring-middle :
    (before body after : List ℕ) (x wanted n : ℕ)
    → All IsPlain before
    → All IsPlain (x ∷ body)
    → length (before ++ (x ∷ (body ++ after))) < 2 ^ 64
    → length (x ∷ body) ≤ wanted
    → ((c : Cut)
        → c.character_counter ≡ length (x ∷ body)
        → cut_loop (length before) wanted (length after) after c ≡ some c)
    → substring
        (length before)
        wanted
        (record { bytes = before ++ (x ∷ (body ++ after)); string_length = n })
      ≡ some (plain_string (x ∷ body))
unfolding substring
substring-middle before body after x wanted n h k b w stop =
    if-false {b = wanted == 0 || ltb (length text) (length before)} _ _ (ground (arith, l1))
    ∙ ap
        (λ o. elim o as (λ t. Option Utf8String) [ none ↦ none | some c ↦ some (cut_bytes text c) ])
        (skipped.1 ∙ first ∙ rest ∙ stop _ refl)
    ∙ ap some (cut_bytes-middle before body after x (length before + length body + 1) b)
  where
    text : List ℕ
    text = before ++ (x ∷ (body ++ after))

    l1 : length text ≡ length before + suc (length (body ++ after))
    l1 = length-append before (x ∷ (body ++ after))

    l2 : length (body ++ after) ≡ length body + length after
    l2 = length-append body after

    skipped :
        (last' : ℕ) × (cut_loop (length before) wanted (length text) text (cut_at 0 0 0 0)
          ≡ cut_loop
              (length before)
              wanted
              (length (x ∷ (body ++ after)))
              (x ∷ (body ++ after))
              (cut_at (length before) 0 last' 0))
    skipped =
        cut_loop-skip (length before) wanted before (x ∷ (body ++ after)) 0 (length before) 0 h
          (omega arith) (omega (arith, l1)) (omega arith) (omega arith)

    first :
        cut_loop
          (length before)
          wanted
          (length (x ∷ (body ++ after)))
          (x ∷ (body ++ after))
          (cut_at (length before) 0 skipped.0 0)
        ≡ cut_loop
            (length before)
            wanted
            (length (body ++ after))
            (body ++ after)
            (cut_at (length before + 1) (length before) (length before) 1)
    first =
        cut_loop-round (length before) wanted (length (body ++ after)) x (body ++ after)
          (length before) 0 skipped.0 0 (length before) 1 k.0 (omega (arith, l1)) (omega arith)
          (if-true {b = length before == length before} _ _ (ground arith))
          (if-true {b = leb (length before) (length before)} _ _ (ground arith))

    rest :
        cut_loop
          (length before)
          wanted
          (length (body ++ after))
          (body ++ after)
          (cut_at (length before + 1) (length before) (length before) 1)
        ≡ cut_loop (length before) wanted (length after) after (
            cut_at
              (length before + length body + 1)
              (length before)
              (length before + length body)
              (length (x ∷ body)))
    rest =
        cut_loop-take (length before) wanted body after (length before) (length before + 1)
          (length before + length body) (length before + length body + 1) (length before) 1
          (length (x ∷ body)) k.1 refl refl refl (omega arith) (omega (arith, l1, l2)) (omega arith)
          w

-- the part before a character
pub substring-before :
    (body after : List ℕ) (x n : ℕ)
    → All IsPlain (x ∷ body)
    → length (x ∷ (body ++ after)) < 2 ^ 64
    → substring 0 (length (x ∷ body)) (record { bytes = (x ∷ body) ++ after; string_length = n })
      ≡ some (plain_string (x ∷ body))
unfolding cut_loop
substring-before body after x n k b =
    substring-middle [] body after x (length (x ∷ body)) n tt k b (omega arith) (stop after)
  where
    stop :
        (ys : List ℕ) (c : Cut)
        → c.character_counter ≡ length (x ∷ body)
        → cut_loop 0 (length (x ∷ body)) (length ys) ys c ≡ some c
    stop [] c e = refl
    stop (y ∷ ys) c e =
        if-false {b = ltb c.character_counter (length (x ∷ body))} _ _ (ground arith)

-- the part behind a text, to the end
pub substring-behind :
    (before body : List ℕ) (x n : ℕ)
    → All IsPlain before
    → All IsPlain (x ∷ body)
    → length (before ++ (x ∷ body)) < npos
    → substring (length before) npos (record { bytes = before ++ (x ∷ body); string_length = n })
      ≡ some (plain_string (x ∷ body))
unfolding cut_loop
substring-behind before body x n h k b =
    ap
      (λ l.
        substring (length before) npos (record { bytes = before ++ (x ∷ l); string_length = n }))
      (sym (append-nil body))
    ∙ substring-middle before body [] x npos n h k
        (subst (λ l. length (before ++ (x ∷ l)) < 2 ^ 64) (sym (append-nil body)) (omega arith))
        (omega (arith, length-append before (x ∷ body))) (λ c e. refl)
