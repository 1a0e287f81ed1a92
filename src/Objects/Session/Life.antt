-- ===== src/Objects/Session/Life.antt =====
-- core/objects/Session.cxx: the life of a session, as any sequence of calls.
use mathlib.Core.Path.{subst}
use openkit_native.Prelude.{
  All, Bool, Bool-cases, List, [], arith, false, if-both, if-false, if-true, if◌then◌else◌, inl,
  inr, is_empty, refl, suc, sym, true, ℕ, ◌&&◌, ◌++◌, ◌+◌, ◌==◌, ◌||◌, ◌∙◌, ◌∷◌, ◌≡◌, ◌⊎◌,
}
use openkit_native.Objects.Session.{
  Ended, Session, SessionEvent, child_closed, close_children, end_session, enter_child,
  is_finishing_or_finished, on_child_closed, parent_told, remove_child, session_ended, try_end,
}

pub data LifeOperation : Type 0 where
  enter : ℕ → LifeOperation
  child_closes : ℕ → LifeOperation
  end_with : Bool → LifeOperation
  try_to_end : LifeOperation

unfoldable pub perform_life : LifeOperation → Session → Ended
perform_life (enter child) s = record { session = enter_child child s; events = [] }
perform_life (child_closes child) s = on_child_closed child s
perform_life (end_with event) s = end_session event s
perform_life try_to_end s = (try_end s).1

unfoldable pub run_life : List LifeOperation → Session → Ended
run_life [] s = record { session = s; events = [] }
run_life (op ∷ ops) s =
    let first = perform_life op s in
    let others = run_life ops first.session in
    record others { events = first.events ++ others.events }

-- How often the parent is told that the session has ended.
unfoldable pub times_told : List SessionEvent → ℕ
times_told [] = 0
times_told (parent_told ∷ es) = suc (times_told es)
times_told (session_ended ∷ es) = times_told es
times_told (child_closed c ∷ es) = times_told es

times_told-append :
    (xs ys : List SessionEvent) → times_told (xs ++ ys) ≡ times_told xs + times_told ys
unfolding times_told
times_told-append [] ys = omega arith
times_told-append (parent_told ∷ es) ys = omega (arith, times_told-append es ys)
times_told-append (session_ended ∷ es) ys = omega (arith, times_told-append es ys)
times_told-append (child_closed c ∷ es) ys = omega (arith, times_told-append es ys)

abbrev pub finished_count : Session → ℕ
finished_count s = if s.is_session_finished then 1 else 0

-- Between two calls a session is either alive or has ended, and then it has no children.
pub record IsSettled (s : Session) : Type 0 where
  pub same : s.is_session_finishing ≡ s.is_session_finished
  pub no_children : (s.is_session_finished ≡ false) ⊎ (s.children ≡ [])

-- What a call leaves: a settled session, which has told its parent if it has ended during the call.
abbrev Settles : Session → Ended → Type 0
Settles s r =
    IsSettled r.session × (times_told r.events + finished_count s ≡ finished_count r.session)

close_children-told : (cs : List ℕ) (s : Session) → times_told (close_children cs s).events ≡ 0
unfolding close_children times_told
close_children-told [] s = refl
close_children-told (c ∷ cs) s = close_children-told cs _

-- The loop takes every child off the list, and changes nothing else.
remove_all : List ℕ → List ℕ → List ℕ
remove_all [] xs = xs
remove_all (c ∷ cs) xs = remove_all cs (remove_child c xs)

close_children-session :
    (cs : List ℕ) (s : Session)
    → (close_children cs s).session ≡ record s { children = remove_all cs s.children }
unfolding close_children remove_all
close_children-session [] s = refl
close_children-session (c ∷ cs) s = close_children-session cs _

num_mem : ℕ → List ℕ → Bool
num_mem x [] = false
num_mem x (c ∷ cs) = (c == x) || num_mem x cs

Covered : List ℕ → List ℕ → Type 0
Covered cs xs = All (λ x. num_mem x cs ≡ true) xs

Covered-more : (c : ℕ) (cs xs : List ℕ) → Covered cs xs → Covered (c ∷ cs) xs
unfolding Covered num_mem
Covered-more c cs [] h = tt
Covered-more c cs (x ∷ xs) h = (ground (arith, h.0), Covered-more c cs xs h.1)

Covered-self : (xs : List ℕ) → Covered xs xs
unfolding Covered num_mem
Covered-self [] = tt
Covered-self (x ∷ xs) = (ground arith, Covered-more x xs xs (Covered-self xs))

Covered-remove : (c : ℕ) (cs xs : List ℕ) → Covered (c ∷ cs) xs → Covered cs (remove_child c xs)
unfolding Covered num_mem remove_child
Covered-remove c cs [] h = tt
Covered-remove c cs (x ∷ xs) h = elim (Bool-cases (x == c)) [
  | inl same ↦ rw same (Covered-remove c cs xs h.1)
  | inr other ↦ rw other ((ground (arith, h.0, other), Covered-remove c cs xs h.1))
]

remove_all-Covered : (cs xs : List ℕ) → Covered cs xs → remove_all cs xs ≡ []
unfolding remove_all Covered num_mem
remove_all-Covered [] [] h = refl
remove_all-Covered [] (x ∷ xs) h = cc
remove_all-Covered (c ∷ cs) xs h =
    remove_all-Covered cs (remove_child c xs) (Covered-remove c cs xs h)

-- Nothing happened, and nothing was to be told.
Settles-same : (s : Session) → IsSettled s → Settles s (record { session = s; events = [] })
unfolding times_told
Settles-same s h = (h, omega arith)

busy-finished :
    (s : Session) → IsSettled s → s.is_session_finished ≡ true → is_finishing_or_finished s ≡ true
unfolding is_finishing_or_finished
busy-finished s h finished = rw (finished, h.same, finished)

idle-alive :
    (s : Session) → IsSettled s → s.is_session_finished ≡ false → is_finishing_or_finished s ≡ false
unfolding is_finishing_or_finished
idle-alive s h alive = rw (h.same, alive)

end_events : Bool → List SessionEvent
end_events event = if event then session_ended ∷ parent_told ∷ [] else parent_told ∷ []

told_once : (event : Bool) → times_told (end_events event) ≡ 1
unfolding times_told end_events
told_once true = omega arith
told_once false = omega arith

end_session-alive :
    (event : Bool) (s : Session)
    → is_finishing_or_finished s ≡ false
    → end_session event s ≡ record {
      session = record s { is_session_finishing = true; is_session_finished = true; children = [] };
      events =
          (close_children s.children (record s { is_session_finishing = true })).events
          ++ end_events event;
    }
unfolding end_session end_events
end_session-alive event s idle =
    if-false _ _ idle
    ∙ rw
        (close_children-session, remove_all-Covered s.children s.children (Covered-self s.children))

end_session-Settles : (event : Bool) (s : Session) → IsSettled s → Settles s (end_session event s)
end_session-Settles event s h = elim (Bool-cases s.is_session_finished) [
  | inl finished ↦
      let e : end_session event s ≡ record { session = s; events = [] } =
        unfold end_session in if-true _ _ (busy-finished s h finished) in
      subst (Settles s) (sym e) (Settles-same s h)
  | inr alive ↦ subst (Settles s) (sym (end_session-alive event s (idle-alive s h alive))) (
    record { same = refl; no_children = inr refl },
    rw (times_told-append, close_children-told, told_once, alive) (omega arith),
  )
]

less_children :
    (child : ℕ) (s : Session)
    → (s.is_session_finished ≡ false) ⊎ (s.children ≡ [])
    → (s.is_session_finished ≡ false) ⊎ (remove_child child s.children ≡ [])
less_children child s (inl alive) = inl alive
less_children child s (inr childless) = inr (unfold remove_child in rw childless)

alive-idle : (s : Session) → is_finishing_or_finished s ≡ false → s.is_session_finished ≡ false
unfolding is_finishing_or_finished
alive-idle s h = ground (arith, h)

tried-Settles :
    (s : Session)
    → IsSettled s
    → s.is_session_finished ≡ false
    → Settles s (record { session = record s { was_tried_for_ending = true }; events = [] })
unfolding times_told
tried-Settles s h alive = (record { same = h.same; no_children = inl alive }, omega arith)

try_end-Settles : (s : Session) → IsSettled s → Settles s (try_end s).1
unfolding try_end
try_end-Settles s h =
    if-both (λ (r : Bool × Ended). Settles s r.1) (is_finishing_or_finished s)
      (λ busy. Settles-same s h)
      (λ idle.
        if-both (λ (r : Bool × Ended). Settles s r.1) (is_empty s.children)
          (λ childless. end_session-Settles false s h)
          (λ parent. tried-Settles s h (alive-idle s idle)))

on_child_closed-Settles :
    (child : ℕ) (s : Session) → IsSettled s → Settles s (on_child_closed child s)
unfolding on_child_closed
on_child_closed-Settles child s h =
    let kept : IsSettled (record s { children = remove_child child s.children }) = record {
      same = h.same;
      no_children = less_children child s h.no_children;
    } in
    if-both (Settles s) (s.was_tried_for_ending && is_empty (remove_child child s.children))
      (λ last.
        end_session-Settles true (record s { children = remove_child child s.children }) kept)
      (λ others. (kept, unfold times_told in omega arith))

perform-Settles : (op : LifeOperation) (s : Session) → IsSettled s → Settles s (perform_life op s)
unfolding perform_life
perform-Settles (enter child) s h =
    unfold enter_child in
    if-both (λ r. Settles s (record { session = r; events = [] })) (is_finishing_or_finished s)
      (λ busy. Settles-same s h)
      (λ idle. (
        record { same = h.same; no_children = inl (alive-idle s idle) },
        unfold times_told in omega arith,
      ))
perform-Settles (child_closes child) s h = on_child_closed-Settles child s h
perform-Settles (end_with event) s h = end_session-Settles event s h
perform-Settles try_to_end s h = try_end-Settles s h

-- Any sequence of entering children, closing children, ending and trying to end leaves a settled
-- session settled: it is alive, or it has ended and has no children. The parent is told once if the
-- session ends in the course of it, and otherwise not at all.
pub run_life-IsSettled :
    (ops : List LifeOperation) (s : Session)
    → IsSettled s
    → let r = run_life ops s in
      IsSettled r.session × (times_told r.events + finished_count s ≡ finished_count r.session)
unfolding run_life
run_life-IsSettled [] s h = Settles-same s h
run_life-IsSettled (op ∷ ops) s h =
    let (settled, told) = perform-Settles op s h in
    let (settled', told') = run_life-IsSettled ops (perform_life op s).session settled in
    (settled', rw times_told-append (omega (arith, told, told')))
