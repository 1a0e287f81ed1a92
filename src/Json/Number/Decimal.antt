-- ===== src/Json/Number/Decimal.antt =====
-- util/json/objects/JsonNumberValue.cxx: an integer is read back from its text.
use openkit_native.Prelude.{
  All, All-append, Bool-cases, List, Option, [], ap, arith, false, if-both, inl, inr, leb, ltb,
  ltb→lt, lt→ltb, refl, suc, true, zero, ℕ, ◌%◌, ◌*◌, ◌++◌, ◌+◌, ◌-◌, ◌/◌, ◌<◌, ◌==◌, ◌^◌, ◌∙◌, ◌∷◌,
  ◌≡◌, ◌≤◌,
}
use openkit_native.Json.Lexer.Number.{
  is_digit, is_fraction, is_unsigned, matches_number_pattern, skip_digits,
}
use openkit_native.Json.Number.{
  decimal, digits_value, from_number_literal, long_to_invariant_string, number_or_missing,
}
use openkit_native.Json.Value.{long, number}

-- What fits into so many digits.
bound : ℕ → ℕ
bound zero = 1
bound (suc f) = 10 * bound f

abbrev IsDigit : ℕ → Type 0
IsDigit c = is_digit c ≡ true

decimal-IsDigit : (f n : ℕ) → All IsDigit (decimal f n)
unfolding decimal
decimal-IsDigit zero n = tt
decimal-IsDigit (suc f) n =
    if-both (All IsDigit) (ltb n 10) (λ h. ((unfold is_digit in ground arith), tt))
      (λ h.
        All-append IsDigit (decimal f (n / 10)) ((48 + n % 10) ∷ []) (decimal-IsDigit f (n / 10))
          ((unfold is_digit in ground arith), tt))

digits_value-append :
    (acc : ℕ) (cs ds : List ℕ) → digits_value acc (cs ++ ds) ≡ digits_value (digits_value acc cs) ds
unfolding digits_value
digits_value-append acc [] ds = refl
digits_value-append acc (c ∷ cs) ds = digits_value-append (10 * acc + (c - 48)) cs ds

last_digit : (acc n : ℕ) → acc ≡ n / 10 → digits_value acc ((48 + n % 10) ∷ []) ≡ n
unfolding digits_value
last_digit acc n h = omega (arith, h)

digits_value-decimal : (f n : ℕ) → n < bound f → digits_value 0 (decimal f n) ≡ n
unfolding decimal bound
digits_value-decimal zero n h = unfold digits_value in omega arith
digits_value-decimal (suc f) n h =
    if-both (λ l. digits_value 0 l ≡ n) (ltb n 10) (λ small. unfold digits_value in omega arith)
      (λ large.
        digits_value-append 0 (decimal f (n / 10)) ((48 + n % 10) ∷ [])
        ∙ last_digit (digits_value 0 (decimal f (n / 10))) n
            (digits_value-decimal f (n / 10) (omega arith)))

-- The first digit is not 0, unless the number is.
decimal-head :
    (f n : ℕ)
    → 0 < n
    → n < bound f
    → (c : ℕ) × (cs : List ℕ) × (decimal f n ≡ c ∷ cs) × ((c == 48) ≡ false)
unfolding decimal bound
decimal-head zero n pos h = absurd (omega arith)
decimal-head (suc f) n pos h = elim (Bool-cases (ltb n 10)) [
  | inl small ↦ (48 + n, [], rw small, ground arith)
  | inr large ↦
      let more : 0 < n / 10 = ground arith in
      let (c, cs, e, first) = decimal-head f (n / 10) more (omega arith) in
      (c, cs ++ (48 + n % 10) ∷ [], rw (large, e), first)
]

skip_digits-All : (cs : List ℕ) → All IsDigit cs → skip_digits cs ≡ []
unfolding skip_digits
skip_digits-All [] h = refl
skip_digits-All (c ∷ cs) h = rw (h.0, skip_digits-All cs h.1)

is_unsigned-digits :
    (c : ℕ) (cs : List ℕ) → All IsDigit (c ∷ cs) → (c == 48) ≡ false → is_unsigned (c ∷ cs) ≡ true
unfolding is_unsigned is_fraction
is_unsigned-digits c cs h first = rw (first, h.0, skip_digits-All cs h.1)

decimal-is_unsigned : (f n : ℕ) → n < bound (suc f) → is_unsigned (decimal (suc f) n) ≡ true
decimal-is_unsigned f zero h = unfold is_unsigned decimal in refl
decimal-is_unsigned f (suc n) h =
    let (c, cs, e, first) = decimal-head (suc f) (suc n) (omega arith) h in
    let digits : All IsDigit (c ∷ cs) = rw e at (decimal-IsDigit (suc f) (suc n)) in
    ap is_unsigned e ∙ is_unsigned-digits c cs digits first

-- A digit is no minus.
digit-minus : (c : ℕ) → IsDigit c → (c == 45) ≡ false
unfolding is_digit
digit-minus c h = ground arith

-- A list of digits that begins as a number does.
record IsNatural (text : List ℕ) (n : ℕ) : Type 0 where
  head : ℕ
  tail : List ℕ
  made_of : text ≡ head ∷ tail
  digits : All IsDigit (head ∷ tail)
  unsigned : is_unsigned (head ∷ tail) ≡ true
  stands_for : digits_value 0 (head ∷ tail) ≡ n

append-cons : (l : List ℕ) (x : ℕ) → (c : ℕ) × (cs : List ℕ) × (l ++ x ∷ [] ≡ c ∷ cs)
append-cons [] x = (x, [], refl)
append-cons (c ∷ cs) x = (c, cs ++ x ∷ [], refl)

decimal-cons : (f n : ℕ) → (c : ℕ) × (cs : List ℕ) × (decimal (suc f) n ≡ c ∷ cs)
unfolding decimal
decimal-cons f n = elim (Bool-cases (ltb n 10)) [
  | inl small ↦ (48 + n, [], rw small)
  | inr large ↦
      let (c, cs, e) = append-cons (decimal f (n / 10)) (48 + n % 10) in (c, cs, rw (large, e))
]

decimal-IsNatural : (f n : ℕ) → n < bound (suc f) → IsNatural (decimal (suc f) n) n
decimal-IsNatural f n h =
    let (c, cs, e) = decimal-cons f n in
    record {
      head = c;
      tail = cs;
      made_of = e;
      digits = rw e at (decimal-IsDigit (suc f) n);
      unsigned = rw e at (decimal-is_unsigned f n h);
      stands_for = rw e at (digits_value-decimal (suc f) n h);
    }

module _ (read_double : List ℕ → Option ℕ) where
  positive-read :
      (n c : ℕ) (cs : List ℕ)
      → n < 2 ^ 63
      → All IsDigit (c ∷ cs)
      → is_unsigned (c ∷ cs) ≡ true
      → digits_value 0 (c ∷ cs) ≡ n
      → from_number_literal read_double (c ∷ cs) ≡ number (long n)
  unfolding from_number_literal matches_number_pattern number_or_missing
  positive-read n c cs small digits unsigned stands_for = rw (
    digit-minus c digits.0,
    unsigned,
    skip_digits-All (c ∷ cs) digits,
    stands_for,
    lt→ltb n (2 ^ 63) small,
  )

  negative-read :
      (n c : ℕ) (cs : List ℕ)
      → 2 ^ 63 ≤ n
      → n < 2 ^ 64
      → All IsDigit (c ∷ cs)
      → is_unsigned (c ∷ cs) ≡ true
      → digits_value 0 (c ∷ cs) ≡ 2 ^ 64 - n
      → from_number_literal read_double (45 ∷ c ∷ cs) ≡ number (long n)
  unfolding from_number_literal matches_number_pattern number_or_missing
  negative-read n c cs large small digits unsigned stands_for =
      let fits : leb (2 ^ 64 - n) (2 ^ 63) ≡ true = ground arith in
      let back : (2 ^ 64 - (2 ^ 64 - n)) % 2 ^ 64 ≡ n = omega arith in
      rw (unsigned, skip_digits-All (c ∷ cs) digits, stands_for, fits, back)

  -- The text of an `int64_t` is read back as this number.
  pub from_number_literal-long :
      (n : ℕ)
      → n < 2 ^ 64
      → from_number_literal read_double (long_to_invariant_string n) ≡ number (long n)
  unfolding long_to_invariant_string
  from_number_literal-long n h =
      if-both (λ l. from_number_literal read_double l ≡ number (long n)) (ltb n (2 ^ 63))
        (λ small.
          let k = decimal-IsNatural 19 n (unfold bound in omega (arith, h)) in
          ap (from_number_literal read_double) k.made_of
          ∙ positive-read n k.head k.tail (ltb→lt _ _ small) k.digits k.unsigned k.stands_for)
        (λ large.
          let k = decimal-IsNatural 19 (2 ^ 64 - n) (unfold bound in omega (arith, h)) in
          ap (λ l. from_number_literal read_double (45 ∷ l)) k.made_of
          ∙ negative-read n k.head k.tail (ground arith) h k.digits k.unsigned k.stands_for)

-- The text of an `int64_t` is a number.
pub matches-long : (n : ℕ) → n < 2 ^ 64 → matches_number_pattern (long_to_invariant_string n) ≡ true
unfolding long_to_invariant_string
matches-long n h =
    if-both (λ l. matches_number_pattern l ≡ true) (ltb n (2 ^ 63))
      (λ small.
        let k = decimal-IsNatural 19 n (unfold bound in omega (arith, h)) in
        ap matches_number_pattern k.made_of
        ∙ (unfold matches_number_pattern in rw (digit-minus k.head k.digits.0, k.unsigned)))
      (λ large.
        let k = decimal-IsNatural 19 (2 ^ 64 - n) (unfold bound in omega (arith, h)) in
        ap (λ l. matches_number_pattern (45 ∷ l)) k.made_of
        ∙ (unfold matches_number_pattern in k.unsigned))
