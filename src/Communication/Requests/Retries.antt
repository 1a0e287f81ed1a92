-- ===== src/Communication/Requests/Retries.antt =====
-- core/communication/BeaconSendingRequestUtil.cxx: how often a status request is made, and the delays.
use mathlib.Core.Path.{subst}
use openkit_native.Prelude.{
  Bool, List, Option, [], append-nil, append_assoc, arith, false, if-false, if-true, inl, inr, none,
  not, suc, true, zero, ℕ, ◌%◌, ◌*◌, ◌++◌, ◌+◌, ◌<◌, ◌^◌, ◌||◌, ◌∙◌, ◌∷◌, ◌≡◌, ◌≤◌, ◌⊎◌,
}
use openkit_native.Communication.Context.{
  Context, Surroundings, is_shutdown_requested, polled, sleep_for,
}
use openkit_native.Communication.Requests.{attempts, send_status_request}
use openkit_native.Protocol.StatusResponse.{StatusResponse, is_successful, is_too_many_requests}

-- An answer after which no other request is made.
unfoldable pub is_final : Option StatusResponse → Bool
is_final answer = is_successful answer || is_too_many_requests answer

-- The delays before the retries.
unfoldable pub doubling : ℕ → ℕ → List ℕ
doubling delay zero = []
doubling delay (suc k) = delay ∷ doubling (delay * 2 % 2 ^ 64) k

-- The request after `k` retries, and the context then.
abbrev pub after_retries : Surroundings → ℕ → ℕ → Context → Option StatusResponse × Context
after_retries w k delay c = (
  w.status_answer (c.requests + k),
  record c {
    polls = c.polls + k + 1;
    requests = c.requests + k + 1;
    sleeps = c.sleeps ++ doubling delay k;
  },
)

module _ (w : Surroundings) (no_shutdown : (n : ℕ) → w.shutdown n ≡ false)
    (client : (n : ℕ) → w.has_client n ≡ true) where
  runs : (c : Context) → c.is_shutdown ≡ false → is_shutdown_requested w c ≡ false
  unfolding is_shutdown_requested
  runs c running = rw (running, no_shutdown c.polls)

  has_one : (n : ℕ) → not (w.has_client n) ≡ false
  has_one n = rw (client n)

  final_now :
      (c : Context) (retries : ℕ)
      → (is_final (w.status_answer (c.requests + 0)) ≡ true) ⊎ (0 ≡ suc retries)
      → is_final (w.status_answer c.requests) ≡ true
  final_now c retries (inl final) =
      let e : c.requests + 0 ≡ c.requests = omega arith in
      subst (λ n. is_final (w.status_answer n) ≡ true) e final
  final_now c retries (inr never) = absurd (omega (arith, never))

  failed_now :
      (k : ℕ) (c : Context)
      → ((i : ℕ) → i < suc k → is_final (w.status_answer (c.requests + i)) ≡ false)
      → is_final (w.status_answer c.requests) ≡ false
  failed_now k c failed =
      let e : c.requests + 0 ≡ c.requests = omega arith in
      subst (λ n. is_final (w.status_answer n) ≡ false) e (failed 0 (omega arith))

  failed_later :
      (k : ℕ) (c : Context)
      → ((i : ℕ) → i < suc k → is_final (w.status_answer (c.requests + i)) ≡ false)
      → (i : ℕ) → i < k
      → is_final (w.status_answer (c.requests + 1 + i)) ≡ false
  failed_later k c failed i lt =
      let e : c.requests + suc i ≡ c.requests + 1 + i = omega arith in
      subst (λ n. is_final (w.status_answer n) ≡ false) e (failed (suc i) (omega (arith, lt)))

  end_later :
      (k retries : ℕ) (c : Context)
      → (is_final (w.status_answer (c.requests + suc k)) ≡ true) ⊎ (suc k ≡ suc retries)
      → (is_final (w.status_answer (c.requests + 1 + k)) ≡ true) ⊎ (k ≡ retries)
  end_later k retries c (inl final) =
      let e : c.requests + suc k ≡ c.requests + 1 + k = omega arith in
      inl (subst (λ n. is_final (w.status_answer n) ≡ true) e final)
  end_later k retries c (inr all_used) = inr (omega (arith, all_used))

  same_context :
      (delay : ℕ) (c : Context)
      → (w.status_answer c.requests, record (polled w c) { requests = c.requests + 1 })
        ≡ after_retries w 0 delay c
  unfolding doubling polled
  same_context delay c = ground (arith, append-nil c.sleeps)

  next_context :
      (k delay : ℕ) (c : Context)
      → after_retries w k
          (delay * 2 % 2 ^ 64)
          (sleep_for delay (record (polled w c) { requests = c.requests + 1 }))
        ≡ after_retries w (suc k) delay c
  unfolding doubling polled sleep_for
  next_context k delay c =
      ground (arith, append_assoc c.sleeps (delay ∷ []) (doubling (delay * 2 % 2 ^ 64) k))

  attempts-after :
      (k retries delay : ℕ) (last : Option StatusResponse) (c : Context)
      → c.is_shutdown ≡ false
      → k ≤ retries
      → ((i : ℕ) → i < k → is_final (w.status_answer (c.requests + i)) ≡ false)
      → (is_final (w.status_answer (c.requests + k)) ≡ true) ⊎ (k ≡ retries)
      → attempts w retries delay last c ≡ after_retries w k delay c
  unfolding attempts is_final sleep_for polled
  attempts-after zero zero delay last c running le failed end =
      if-false _ _ (runs c running) ∙ (if-false _ _ (has_one c.polls) ∙ same_context delay c)
  attempts-after zero (suc retries) delay last c running le failed end =
      if-false _ _ (runs c running)
      ∙ (if-false _ _ (has_one c.polls)
          ∙ (if-true _ _ (final_now c retries end) ∙ same_context delay c))
  attempts-after (suc k) zero delay last c running le failed end = absurd (omega (arith, le))
  attempts-after (suc k) (suc retries) delay last c running le failed end =
      if-false _ _ (runs c running)
      ∙ (if-false _ _ (has_one c.polls)
          ∙ (if-false _ _ (failed_now k c failed)
              ∙ (attempts-after k retries (delay * 2 % 2 ^ 64) _
                    (sleep_for delay (record (polled w c) { requests = c.requests + 1 })) running
                    (omega (arith, le)) (failed_later k c failed) (end_later k retries c end)
                  ∙ next_context k delay c)))

  -- While no shutdown is requested and there is a client, a status request is made again until an answer
  -- is successful or asks to send less, or until all retries are used: if that is so after `k` retries
  -- and not before, there were `k` + 1 requests, the answer to the last one is returned, and the
  -- thread slept `k` times, at first for the initial delay and then for twice as long each time.
  pub send_status_request-after :
      (k retries delay : ℕ) (c : Context)
      → c.is_shutdown ≡ false
      → k ≤ retries
      → ((i : ℕ) → i < k → is_final (w.status_answer (c.requests + i)) ≡ false)
      → (is_final (w.status_answer (c.requests + k)) ≡ true) ⊎ (k ≡ retries)
      → send_status_request w retries delay c ≡ after_retries w k delay c
  unfolding send_status_request
  send_status_request-after k retries delay c running le failed end =
      attempts-after k retries delay none c running le failed end
