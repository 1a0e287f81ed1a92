-- ===== src/Protocol/StatusResponse.antt =====
-- protocol/StatusResponse.cxx: the answer to a request, or none where the request could not be made.
-- `retry_after` is what `getRetryAfterInMilliseconds` returns for the response's headers.
use openkit_native.Prelude.{
  Bool, List, Option, [], arith, false, none, not, slt32, some, true, ℕ, ◌&&◌, ◌==◌, ◌||◌, ◌∷◌, ◌≡◌,
}
use openkit_native.Protocol.Attributes.{ResponseAttributes, status}

pub record StatusResponse : Type 0 where
  pub response_attributes : ResponseAttributes
  pub response_code : ℕ
  pub retry_after : ℕ

abbrev pub http_bad_request : ℕ
http_bad_request = 400

abbrev pub http_too_many_requests : ℕ
http_too_many_requests = 429

-- "ERROR"
abbrev pub response_status_error : List ℕ
response_status_error = b'E' ∷ b'R' ∷ b'R' ∷ b'O' ∷ b'R' ∷ []

unfoldable pub bytes_eq : List ℕ → List ℕ → Bool
bytes_eq [] [] = true
bytes_eq [] (y ∷ ys) = false
bytes_eq (x ∷ xs) [] = false
bytes_eq (x ∷ xs) (y ∷ ys) = (x == y) && bytes_eq xs ys

-- The response code is an `int32_t`, compared as a signed value.
unfoldable pub is_erroneous_response : StatusResponse → Bool
is_erroneous_response r =
    not (slt32 r.response_code http_bad_request)
    || (r.response_attributes.is_attribute_set status
        && bytes_eq r.response_attributes.status_value.bytes response_status_error)

unfoldable pub is_too_many_requests_response : StatusResponse → Bool
is_too_many_requests_response r = r.response_code == http_too_many_requests

-- core/communication/BeaconSendingResponseUtil.cxx, where the response may be a null pointer
unfoldable pub is_successful : Option StatusResponse → Bool
is_successful none = false
is_successful (some r) = not (is_erroneous_response r)

unfoldable pub is_too_many_requests : Option StatusResponse → Bool
is_too_many_requests none = false
is_too_many_requests (some r) = is_too_many_requests_response r

-- An answer that asks to send less is erroneous.
pub too_many-erroneous :
    (r : StatusResponse) → is_too_many_requests_response r ≡ true → is_erroneous_response r ≡ true
unfolding is_too_many_requests_response is_erroneous_response slt32
too_many-erroneous r h = ground arith

pub too_many-not_successful :
    (r : Option StatusResponse) → is_too_many_requests r ≡ true → is_successful r ≡ false
unfolding is_too_many_requests is_successful
too_many-not_successful none h = cc
too_many-not_successful (some r) h = ground (arith, too_many-erroneous r h)
