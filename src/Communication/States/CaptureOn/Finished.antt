-- ===== src/Communication/States/CaptureOn/Finished.antt =====
-- core/communication/BeaconSendingCaptureOnState.cxx: which finished sessions are given up.
use native.Mathlib.Nat.{le_trans}
use openkit_native.Prelude.{
  some, ◌+◌, All, All-mono, Bool, List, Option, [], ap, arith, false, if-both, inl, inr, not, refl,
  true, ℕ, ◌&&◌, ◌++◌, ◌<◌, ◌||◌, ◌∙◌, ◌∷◌, ◌≡◌, ◌≤◌, ◌⊎◌,
}
use openkit_native.Caching.Cache.{Cache}
use openkit_native.Communication.Context.{Context, Surroundings, remove_first, remove_session}
use openkit_native.Communication.States.{SendingReturns, Sent, forget_session, send_session}
use openkit_native.Objects.Session.{Session, is_data_sending_allowed, session_is_empty}
use openkit_native.Protocol.StatusResponse.{StatusResponse, is_successful, is_too_many_requests}
use openkit_native.Communication.States.CaptureOn.{send_finished_sessions}
use openkit_native.Caching.Cache

-- One of the requests from the first number up to the second one sent the session's beacon, and that was
-- accepted, or it left nothing and was not refused for too many requests.
pub record WasSent (w : Surroundings) (first end : ℕ) (s : Session) : Type 0 where
  pub number : ℕ
  pub cache : Cache.Cache
  pub answer : Option StatusResponse
  pub cache_left : Cache.Cache
  pub from_first : first ≤ number
  pub before_end : number < end
  pub returned : w.send_beacon number s cache ≡ some (answer, cache_left)
  pub outcome :
      (is_successful answer ≡ true)
      ⊎ ((session_is_empty s cache_left ≡ true) × (is_too_many_requests answer ≡ false))

-- Why a session may be forgotten.
abbrev pub Reason : Surroundings → ℕ → ℕ → Session → Type 0
Reason w first end s = (is_data_sending_allowed s ≡ false) ⊎ WasSent w first end s

unfoldable pub remove_each : List Session → List Session → List Session
remove_each [] xs = xs
remove_each (s ∷ ss) xs = remove_each ss (remove_first s.address xs)

-- The run ends with the last session, or with one whose sending failed and that still has data, or that
-- the server refused for too many requests.
abbrev pub EndsWith : List Session → Sent → Type 0
EndsWith [] r = Unit
EndsWith (s ∷ ss) r =
    (is_data_sending_allowed s ≡ true)
    × ((is_successful r.answer ≡ false)
        × ((is_too_many_requests r.answer ≡ true) ⊎ (session_is_empty s r.context.cache ≡ false)))

pub record GivesUp (w : Surroundings) (ss : List Session) (c : Context) (r : Sent) : Type 0 where
  pub forgotten : List Session
  pub left : List Session
  pub parts : forgotten ++ left ≡ ss
  pub sessions_left : r.context.sessions ≡ remove_each forgotten c.sessions
  pub reasons : All (Reason w c.requests r.context.requests) forgotten
  pub more_requests : c.requests ≤ r.context.requests
  pub at_the_end : EndsWith left r

failing :
    (ok busy gone : Bool)
    → (not ok && (busy || not gone)) ≡ true
    → (ok ≡ false) × ((busy ≡ true) ⊎ (gone ≡ false))
failing true busy gone h = cc
failing false true gone h = (refl, inl refl)
failing false false true h = cc
failing false false false h = (refl, inr refl)

passing :
    (ok busy gone : Bool)
    → (not ok && (busy || not gone)) ≡ false
    → (ok ≡ true) ⊎ ((gone ≡ true) × (busy ≡ false))
passing true busy gone h = inl refl
passing false true gone h = cc
passing false false true h = inr (refl, refl)
passing false false false h = cc

module _ (w : Surroundings) where
  earlier :
      (first later end : ℕ) (s : Session)
      → first ≤ later
      → Reason w later end s
      → Reason w first end s
  earlier first later end s le (inl unwanted) = inl unwanted
  earlier first later end s le (inr was) = inr (record {
    number = was.number;
    cache = was.cache;
    answer = was.answer;
    cache_left = was.cache_left;
    returned = was.returned;
    from_first = le_trans le was.from_first;
    before_end = was.before_end;
    outcome = was.outcome;
  })

  one_more :
      (s : Session) (ss : List Session) (c d : Context) (r : Sent)
      → (d.requests ≤ r.context.requests → Reason w c.requests r.context.requests s)
      → c.requests ≤ d.requests
      → d.sessions ≡ remove_first s.address c.sessions
      → GivesUp w ss d r
      → GivesUp w (s ∷ ss) c r
  unfolding remove_each
  one_more s ss c d r why grows removed g = record {
    forgotten = s ∷ g.forgotten;
    left = g.left;
    parts = ap (λ xs. s ∷ xs) g.parts;
    sessions_left = g.sessions_left ∙ ap (remove_each g.forgotten) removed;
    reasons = (
      why g.more_requests,
      All-mono (Reason w d.requests r.context.requests)
          (λ t. earlier c.requests d.requests r.context.requests t grows) g.forgotten g.reasons,
    );
    more_requests = le_trans grows g.more_requests;
    at_the_end = g.at_the_end;
  }

  -- A result that is there and gives the sessions up.
  abbrev pub Ends : List Session → Context → Option Sent → Type 0
  Ends ss c o = (r : Sent) × (o ≡ some r) × GivesUp w ss c r

  one_kept :
      (s : Session) (ss : List Session) (c d : Context) (answer : Option StatusResponse)
      → d.sessions ≡ c.sessions
      → c.requests ≤ d.requests
      → EndsWith (s ∷ ss) (record { answer = answer; context = d })
      → GivesUp w (s ∷ ss) c (record { answer = answer; context = d })
  unfolding remove_each
  one_kept s ss c d answer same more ends = record {
    forgotten = [];
    left = s ∷ ss;
    parts = refl;
    sessions_left = same;
    reasons = tt;
    more_requests = more;
    at_the_end = ends;
  }

  one_sent :
      (s : Session) (ss : List Session) (c : Context) (answer : Option StatusResponse)
      (left : Cache.Cache)
      → w.send_beacon c.requests s c.cache ≡ some (answer, left)
      → (is_successful answer ≡ true)
        ⊎ ((session_is_empty s left ≡ true) × (is_too_many_requests answer ≡ false))
      → (r : Sent)
      → GivesUp w ss (forget_session w s (record c { cache = left; requests = c.requests + 1 })) r
      → GivesUp w (s ∷ ss) c r
  unfolding forget_session remove_session
  one_sent s ss c answer left returned passed r g =
      one_more s ss c (forget_session w s (record c { cache = left; requests = c.requests + 1 })) r
        (λ more. inr (record {
          number = c.requests;
          cache = c.cache;
          answer = answer;
          cache_left = left;
          from_first = omega arith;
          before_end = omega (arith, more);
          returned = returned;
          outcome = passed;
        }))
        (omega arith) refl g

  -- Where every call of `Beacon::send` for one of the finished sessions returns, sending them ends, and it
  -- forgets only sessions whose data is not wanted, or whose beacon was sent by one of the requests that it makes, with
  -- success or without any data left and without a refusal for too many requests. These are the first
  -- ones of the given list, and they are taken off the list of the context; if some session stays, the
  -- sending of the first such session failed.
  pub send_finished_sessions-GivesUp :
      (ss : List Session) (last : Option StatusResponse) (c : Context)
      → All (SendingReturns w) ss
      → (r : Sent) × (send_finished_sessions w ss last c ≡ some r) × GivesUp w ss c r
  unfolding send_finished_sessions send_session forget_session remove_session remove_each
  send_finished_sessions-GivesUp [] last c returns = (
    _,
    refl,
    record {
      forgotten = [];
      left = [];
      parts = refl;
      sessions_left = refl;
      reasons = tt;
      more_requests = omega arith;
      at_the_end = tt;
    },
  )
  send_finished_sessions-GivesUp (s ∷ ss) last c (returns, others_return) =
      if-both (Ends (s ∷ ss) c) (is_data_sending_allowed s)
        (λ wanted.
          let ((answer, left), returned) = returns c.requests c.cache in
          let sent = record c { cache = left; requests = c.requests + 1 } in
          rw returned (
            if-both (Ends (s ∷ ss) c)
              (not (is_successful answer)
                && (is_too_many_requests answer || not (session_is_empty s left)))
              {x = some (record { answer = answer; context = sent })}
              (λ failed. (
                _,
                refl,
                one_kept s ss c sent answer refl (omega arith) (wanted, failing _ _ _ failed),
              ))
              (λ passed.
                let (r, ends, g) =
                  send_finished_sessions-GivesUp ss answer (forget_session w s sent)
                    others_return in
                (r, ends, one_sent s ss c answer left returned (passing _ _ _ passed) r g))))
        (λ unwanted.
          let (r, ends, g) =
            send_finished_sessions-GivesUp ss last (forget_session w s c) others_return in
          (
            r,
            ends,
            one_more s ss c (forget_session w s c) r (λ more. inl unwanted) (omega arith) refl g,
          ))
