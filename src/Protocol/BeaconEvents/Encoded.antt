-- ===== src/Protocol/BeaconEvents/Encoded.antt =====
-- protocol/Beacon.cxx: the data of an event is the text of its key-value pairs.
use openkit_native.Prelude.{
  List, [], ap, append-nil, append_assoc, arith, if-false, if-true, length, length-append, ltb,
  refl, suc, sym, ℕ, ◌++◌, ◌<◌, ◌==◌, ◌∙◌, ◌∷◌, ◌≡◌,
}
use openkit_native.Text.{Utf8String, concatenate, empty_string, is_empty_string}
use openkit_native.Text.Parts.Plain.{plain_string, utf8_string-plain}
use openkit_native.UrlEncoding.{encode_bytes, urlencode}
use openkit_native.Protocol.BeaconEvents.{
  add_key_value_pair, append_key, encoded_text, literal_text,
}
use openkit_native.Protocol.KeyValueResponse.{Pairs}
use openkit_native.Protocol.KeyValueResponse.Written.{pair_text, pairs_text}
use openkit_native.UrlEncoding.Plain.{encode_bytes-IsPlain}

concatenate-plain :
    (xs ys : List ℕ) → concatenate (plain_string xs) (plain_string ys) ≡ plain_string (xs ++ ys)
unfolding concatenate
concatenate-plain xs [] = sym (ap plain_string (append-nil xs))
concatenate-plain xs (y ∷ ys) =
    if-true {b = ltb 0 (suc (length ys))} _ _ (ground arith)
    ∙ (λ i. record { bytes = xs ++ y ∷ ys; string_length = sym (length-append xs (y ∷ ys)) i })

encoded_text-plain :
    (value : Utf8String) → encoded_text value ≡ plain_string (encode_bytes (b'_' ∷ []) value.bytes)
unfolding encoded_text urlencode
encoded_text-plain value =
    utf8_string-plain (encode_bytes (b'_' ∷ []) value.bytes)
      (encode_bytes-IsPlain (b'_' ∷ []) value.bytes)

pairs_text-snoc :
    (p : List ℕ × List ℕ) (ps : Pairs) (q : List ℕ × List ℕ)
    → pairs_text (p ∷ (ps ++ q ∷ [])) ≡ pairs_text (p ∷ ps) ++ b'&' ∷ pair_text q
unfolding pairs_text
pairs_text-snoc p [] q = refl
pairs_text-snoc p (r ∷ rs) q =
    ap (λ t. pair_text p ++ b'&' ∷ t) (pairs_text-snoc r rs q)
    ∙ sym (append_assoc (pair_text p) (b'&' ∷ pairs_text (r ∷ rs)) (b'&' ∷ pair_text q))

pair_text-positive : (p : List ℕ × List ℕ) → 0 < length (pair_text p)
unfolding pair_text
pair_text-positive (key, value) = omega (arith, length-append key (b'=' ∷ value))

pairs_text-positive : (p : List ℕ × List ℕ) (ps : Pairs) → 0 < length (pairs_text (p ∷ ps))
unfolding pairs_text
pairs_text-positive p [] = pair_text-positive p
pairs_text-positive p (q ∷ ps) =
    omega (arith, length-append (pair_text p) (b'&' ∷ pairs_text (q ∷ ps)))

-- A key, the equals sign and the value behind a text.
with_pair :
    (xs key value : List ℕ)
    → concatenate
        (concatenate (concatenate (plain_string xs) (plain_string key)) (plain_string (b'=' ∷ [])))
        (plain_string value)
      ≡ plain_string (xs ++ pair_text (key, value))
unfolding pair_text
with_pair xs key value =
    ap (λ s. concatenate (concatenate s (plain_string (b'=' ∷ []))) (plain_string value))
      (concatenate-plain xs key)
    ∙ ap (λ s. concatenate s (plain_string value)) (concatenate-plain (xs ++ key) (b'=' ∷ []))
    ∙ concatenate-plain ((xs ++ key) ++ b'=' ∷ []) value
    ∙ ap plain_string
        (append_assoc (xs ++ key) (b'=' ∷ []) value ∙ append_assoc xs key (b'=' ∷ value))

add_key_value_pair-pairs :
    (ps : Pairs) (key : List ℕ) (value : Utf8String)
    → add_key_value_pair (plain_string (pairs_text ps)) (plain_string key) value
      ≡ plain_string (pairs_text (ps ++ (key, encode_bytes (b'_' ∷ []) value.bytes) ∷ []))
unfolding add_key_value_pair append_key is_empty_string pairs_text
add_key_value_pair-pairs [] key value =
    ap
      (λ e.
        concatenate (concatenate (concatenate empty_string (plain_string key)) (literal_text "="))
          e)
      (encoded_text-plain value)
    ∙ with_pair [] key (encode_bytes (b'_' ∷ []) value.bytes)
add_key_value_pair-pairs (p ∷ ps) key value =
    let t = pairs_text (p ∷ ps) in
    let e = encode_bytes (b'_' ∷ []) value.bytes in
    ap
      (λ s.
        concatenate (concatenate (concatenate s (plain_string key)) (literal_text "="))
          (encoded_text value))
      (if-false {b = length t == 0} _ _ (ground (arith, pairs_text-positive p ps))
        ∙ concatenate-plain t (b'&' ∷ []))
    ∙ ap
        (λ x.
          concatenate
            (concatenate (concatenate (plain_string (t ++ b'&' ∷ [])) (plain_string key))
              (literal_text "="))
            x)
        (encoded_text-plain value)
    ∙ with_pair (t ++ b'&' ∷ []) key e
    ∙ ap plain_string
        (append_assoc t (b'&' ∷ []) (pair_text (key, e)) ∙ sym (pairs_text-snoc p ps (key, e)))

-- a pair as it is written
unfoldable pub encoded : List ℕ → Utf8String → List ℕ × List ℕ
encoded key value = (key, encode_bytes (b'_' ∷ []) value.bytes)

pub add_key_value_pair-Written :
    (ps : Pairs) {s : Utf8String} (key : List ℕ) (value : Utf8String)
    → s ≡ plain_string (pairs_text ps)
    → add_key_value_pair s (plain_string key) value
      ≡ plain_string (pairs_text (ps ++ encoded key value ∷ []))
unfolding encoded
add_key_value_pair-Written ps key value h =
    ap (λ z. add_key_value_pair z (plain_string key) value) h
    ∙ add_key_value_pair-pairs ps key value
