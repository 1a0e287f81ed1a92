-- ===== src/Watchdog/Closing.antt =====
-- core/SessionWatchdogContext.cxx: which sessions an execution closes, and how long it sleeps.
use native.Mathlib.Nat.{le_trans}
use openkit_native.Prelude.{
  ==_iff, All, Bool, Bool-cases, List, [], ap, append-nil, append_assoc, arith, false, if-both,
  if-true, if◌then◌else◌, inl, inr, map, not, rank64, refl, slt64, sub64, sym, ℕ, ◌++◌, ◌+◌, ◌==◌,
  ◌∙◌, ◌∷◌, ◌≡◌, ◌≤◌, ◌⊎◌,
}
use openkit_native.Objects.Session.{Session, end_session}
use openkit_native.Watchdog.{
  Scan, WatchdogContext, close_all, close_expired_sessions, min64, scan_sessions,
  watchdog_sleep_time,
}
use openkit_native.Communication.Context.{remove_first}
use openkit_native.Communication.States.CaptureOn.Finished.{remove_each}

-- The sessions whose time has come when the clock is read for them, and those that go on waiting.
pub expired : (ℕ → ℕ) → ℕ → List Session → List Session
expired now n [] = []
expired now n (s ∷ ss) =
    if slt64 (now n) s.split_by_events_grace_period_end_time
    then expired now (n + 1) ss
    else s ∷ expired now (n + 1) ss

pub waiting : (ℕ → ℕ) → ℕ → List Session → List Session
waiting now n [] = []
waiting now n (s ∷ ss) =
    if slt64 (now n) s.split_by_events_grace_period_end_time
    then s ∷ waiting now (n + 1) ss
    else waiting now (n + 1) ss

-- No object is twice among the sessions.
abbrev pub OtherObject : Session → Session → Type 0
OtherObject s t = (s.address == t.address) ≡ false

abbrev pub AreDistinct : List Session → Type 0
AreDistinct [] = Unit
AreDistinct (s ∷ ss) = All (OtherObject s) ss × AreDistinct ss

-- The time to sleep is not longer than the time that a waiting session still has.
abbrev pub WakesFor : (ℕ → ℕ) → ℕ → ℕ → List Session → Type 0
WakesFor now n sleep [] = Unit
WakesFor now n sleep (s ∷ ss) =
    ((slt64 (now n) s.split_by_events_grace_period_end_time ≡ false)
      ⊎ (rank64 sleep ≤ rank64 (sub64 s.split_by_events_grace_period_end_time (now n))))
    × WakesFor now (n + 1) sleep ss

module _ (now : ℕ → ℕ) where
  scan-expired :
      (n sleep : ℕ) (ss : List Session) → (scan_sessions now n sleep ss).closable ≡ expired now n ss
  unfolding scan_sessions expired
  scan-expired n sleep [] = refl
  scan-expired n sleep (s ∷ ss) =
      elim (Bool-cases (slt64 (now n) s.split_by_events_grace_period_end_time)) [
        | inl stays ↦ rw (stays, scan-expired (n + 1) _ ss)
        | inr goes ↦ rw (goes, scan-expired (n + 1) sleep ss)
      ]

  min64-le : (a b : ℕ) → (rank64 (min64 a b) ≤ rank64 a) × (rank64 (min64 a b) ≤ rank64 b)
  unfolding min64 slt64
  min64-le a b = ground arith

  scan-le :
      (n sleep : ℕ) (ss : List Session)
      → rank64 (scan_sessions now n sleep ss).sleep_time ≤ rank64 sleep
  unfolding scan_sessions
  scan-le n sleep [] = omega arith
  scan-le n sleep (s ∷ ss) =
      let shorter = min64 sleep (sub64 s.split_by_events_grace_period_end_time (now n)) in
      if-both (λ (r : Scan). rank64 r.sleep_time ≤ rank64 sleep)
        (not (slt64 (now n) s.split_by_events_grace_period_end_time))
        (λ goes. scan-le (n + 1) sleep ss)
        (λ stays. le_trans (scan-le (n + 1) shorter ss) (min64-le sleep _).0)

  weaker :
      (n a b : ℕ) (ss : List Session)
      → rank64 a ≤ rank64 b
      → WakesFor now n b ss
      → WakesFor now n a ss
  weaker n a b [] le h = tt
  weaker n a b (s ∷ ss) le h = (
    weaker_one (slt64 (now n) s.split_by_events_grace_period_end_time) le h.0,
    weaker (n + 1) a b ss le h.1,
  )
    where
      weaker_one :
          {x y z : ℕ} (goes : Bool) → x ≤ y → (goes ≡ false) ⊎ (y ≤ z) → (goes ≡ false) ⊎ (x ≤ z)
      weaker_one goes le (inl g) = inl g
      weaker_one goes le (inr h) = inr (le_trans le h)

  scan-WakesFor :
      (n sleep : ℕ) (ss : List Session)
      → WakesFor now n (scan_sessions now n sleep ss).sleep_time ss
  unfolding scan_sessions
  scan-WakesFor n sleep [] = tt
  scan-WakesFor n sleep (s ∷ ss) =
      let left_time = sub64 s.split_by_events_grace_period_end_time (now n) in
      if-both (λ (r : Scan). WakesFor now n r.sleep_time (s ∷ ss))
        (not (slt64 (now n) s.split_by_events_grace_period_end_time))
        (λ goes. (inl (ground (arith, goes)), scan-WakesFor (n + 1) sleep ss))
        (λ stays. (
          inr (le_trans (scan-le (n + 1) (min64 sleep left_time) ss) (min64-le sleep left_time).1),
          scan-WakesFor (n + 1) (min64 sleep left_time) ss,
        ))

remove_each-OtherObject :
    (s : Session) (es xs : List Session)
    → All (OtherObject s) es
    → remove_each es (s ∷ xs) ≡ s ∷ remove_each es xs
unfolding remove_each remove_first
remove_each-OtherObject s [] xs h = refl
remove_each-OtherObject s (e ∷ es) xs h =
    rw h.0 (remove_each-OtherObject s es (remove_first e.address xs) h.1)

expired-All :
    (P : Session → Type 0) (now : ℕ → ℕ) (n : ℕ) (ss : List Session)
    → All P ss
    → All P (expired now n ss)
unfolding expired
expired-All P now n [] h = tt
expired-All P now n (s ∷ ss) h =
    if-both (All P) (slt64 (now n) s.split_by_events_grace_period_end_time)
      (λ stays. expired-All P now (n + 1) ss h.1) (λ goes. (h.0, expired-All P now (n + 1) ss h.1))

remove_own : (s : Session) (xs : List Session) → remove_first s.address (s ∷ xs) ≡ xs
unfolding remove_first
remove_own s xs = if-true _ _ ((==_iff s.address s.address).1 refl)

remove_each-expired :
    (now : ℕ → ℕ) (n : ℕ) (ss : List Session)
    → AreDistinct ss
    → remove_each (expired now n ss) ss ≡ waiting now n ss
unfolding expired waiting remove_each
remove_each-expired now n [] h = refl
remove_each-expired now n (s ∷ ss) h =
    elim (Bool-cases (slt64 (now n) s.split_by_events_grace_period_end_time)) [
      | inl stays ↦ rw (
        stays,
        remove_each-OtherObject s (expired now (n + 1) ss) ss
            (expired-All (OtherObject s) now (n + 1) ss h.0),
        remove_each-expired now (n + 1) ss h.1,
      )
      | inr goes ↦ rw goes (
          ap (remove_each (expired now (n + 1) ss)) (remove_own s ss)
          ∙ remove_each-expired now (n + 1) ss h.1)
    ]

close_all-sessions :
    (now : ℕ → ℕ) (ss : List Session) (c : WatchdogContext)
    → ((close_all now ss c).sessions_to_close ≡ remove_each ss c.sessions_to_close)
      × ((close_all now ss c).closed ≡ c.closed ++ map (end_session false) ss)
unfolding close_all remove_each
close_all-sessions now [] c = (refl, sym (append-nil c.closed))
close_all-sessions now (s ∷ ss) c =
    let h = close_all-sessions now ss (record c {
      sessions_to_close = remove_first s.address c.sessions_to_close;
      closed = c.closed ++ end_session false s ∷ [];
    }) in
    (h.0, h.1 ∙ append_assoc c.closed (end_session false s ∷ []) (map (end_session false) ss))

-- If no session waits twice, an execution ends exactly the sessions whose time has
-- come when the clock is read for them, in their order and without an end event, and the others go
-- on waiting in their order. It then sleeps for at most the default time, and for no longer than
-- the time that any waiting session still has.
pub close_expired_sessions-waiting :
    (now : ℕ → ℕ) (c : WatchdogContext)
    → AreDistinct c.sessions_to_close
    → let (sleep, d) = close_expired_sessions now c in
      (d.sessions_to_close ≡ waiting now c.clock_readings c.sessions_to_close)
      × (d.closed
          ≡ c.closed ++ map (end_session false) (expired now c.clock_readings c.sessions_to_close))
      × (rank64 sleep ≤ rank64 watchdog_sleep_time)
      × WakesFor now c.clock_readings sleep c.sessions_to_close
unfolding close_expired_sessions
close_expired_sessions-waiting now c numbered =
    let n = c.clock_readings in
    let ss = c.sessions_to_close in
    let found = scan_sessions now n watchdog_sleep_time ss in
    let e : found.closable ≡ expired now n ss = scan-expired now n watchdog_sleep_time ss in
    let done = close_all-sessions now found.closable (record c { clock_readings = found.clock }) in
    (
      done.0 ∙ (ap (λ xs. remove_each xs ss) e ∙ remove_each-expired now n ss numbered),
      done.1 ∙ ap (λ xs. c.closed ++ map (end_session false) xs) e,
      scan-le now n watchdog_sleep_time ss,
      scan-WakesFor now n watchdog_sleep_time ss,
    )
