-- ===== src/Objects/SessionProxy/Splitting.antt =====
-- core/objects/SessionProxy.cxx: the next split, and the configuration by which it is found.
use openkit_native.Prelude.{
  Bool, List, Option-cases, [], add64, false, if-both, if◌then◌else◌, inl, inr, none, sign_extend32,
  slt64, some, true, ℕ, ◌&&◌, ◌++◌, ◌∷◌, ◌≡◌,
}
use openkit_native.Configuration.Server.{
  is_session_split_by_idle_timeout_enabled, is_session_split_by_session_duration_enabled,
}
use openkit_native.Objects.SessionProxy.{SessionProxy, calculate_next_split_time, no_split_time}
use openkit_native.Watchdog.{min64}

-- The times at which the current session has to be split at the latest.
unfoldable pub deadlines : SessionProxy → List ℕ
deadlines p = elim p.proxy_configuration [
  | none ↦ []
  | some c ↦
      (if is_session_split_by_idle_timeout_enabled c
        then add64 p.last_interaction_time (sign_extend32 c.session_timeout_in_milliseconds) ∷ []
        else [])
      ++ (if is_session_split_by_session_duration_enabled c
          then add64 p.session_start_time (sign_extend32 c.max_session_duration_in_milliseconds)
            ∷ []
          else [])
]

-- The first one of several times, in the order of the signed values.
pub data IsFirst : ℕ → List ℕ → Type 0 where
  nothing : IsFirst no_split_time []
  only : (t : ℕ) → IsFirst t (t ∷ [])
  left : (t u : ℕ) → slt64 u t ≡ false → IsFirst t (t ∷ u ∷ [])
  right : (t u : ℕ) → slt64 u t ≡ true → IsFirst u (t ∷ u ∷ [])

min64-IsFirst : (t u : ℕ) → IsFirst (min64 t u) (t ∷ u ∷ [])
unfolding min64
min64-IsFirst t u =
    if-both (λ x. IsFirst x (t ∷ u ∷ [])) (slt64 u t) (λ h. right t u h) (λ h. left t u h)

-- What is chosen for two deadlines, each of which may be switched off.
choice-IsFirst :
    (a b : Bool) (t u : ℕ)
    → IsFirst
        (if a && b then min64 t u else if a then t else if b then u else no_split_time)
        ((if a then t ∷ [] else []) ++ (if b then u ∷ [] else []))
choice-IsFirst true true t u = min64-IsFirst t u
choice-IsFirst true false t u = only t
choice-IsFirst false true t u = only u
choice-IsFirst false false t u = nothing

-- The next split time is the first of the deadlines whose switches are on, and -1 if there is none.
pub calculate_next_split_time-IsFirst :
    (p : SessionProxy) → IsFirst (calculate_next_split_time p) (deadlines p)
unfolding calculate_next_split_time deadlines
calculate_next_split_time-IsFirst p = elim (Option-cases p.proxy_configuration) [
  | inl absent ↦ rw (absent, calculate_next_split_time, deadlines) nothing
  | inr (c, found) ↦
      rw (found, calculate_next_split_time, deadlines)
        (choice-IsFirst (is_session_split_by_idle_timeout_enabled c)
          (is_session_split_by_session_duration_enabled c)
          (add64 p.last_interaction_time (sign_extend32 c.session_timeout_in_milliseconds))
          (add64 p.session_start_time (sign_extend32 c.max_session_duration_in_milliseconds)))
]
