-- ===== src/Objects/SessionProxy/Updates.antt =====
-- core/objects/SessionProxy.cxx: the server configurations that the session tells its proxy.
use mathlib.Core.Path.{subst}
use openkit_native.Prelude.{
  Bool, List, [], add64, arith, false, if◌then◌else◌, none, not, refl, sign_extend32, slt32, some,
  sym, true, ℕ, ◌&&◌, ◌+◌, ◌||◌, ◌∙◌, ◌∷◌, ◌≡◌,
}
use openkit_native.Caching.Cache.Run.{run}
use openkit_native.Configuration.Server.{
  ServerConfiguration, is_session_split_by_idle_timeout_enabled,
  is_session_split_by_session_duration_enabled, merge_configuration,
}
use openkit_native.Configuration.Server.Merge.{Fixed, fixed_of, fixed_of-merge}
use openkit_native.Objects.SessionProxy.{
  SessionProxy, calculate_next_split_time, is_session_split_by_events_required, no_split_time,
  on_server_configuration_update,
}
use openkit_native.Watchdog.{min64}

pub run_configurations : List ServerConfiguration → SessionProxy → SessionProxy
run_configurations [] p = p
run_configurations (c ∷ cs) p = run_configurations cs (on_server_configuration_update c p)

unfoldable pub with_configuration : ServerConfiguration → SessionProxy → SessionProxy
with_configuration c p = record p { proxy_configuration = some c }

-- When a session is split, and how often the proxy was handed to the watchdog for it.
pub IsAlike : SessionProxy → SessionProxy → Type 0
IsAlike p q =
    (calculate_next_split_time p ≡ calculate_next_split_time q)
    × (is_session_split_by_events_required p ≡ is_session_split_by_events_required q)
    × (p.split_requests ≡ q.split_requests)

-- The split time as a function of what updates keep.
next_by : SessionProxy → Fixed → ℕ
next_by p f =
    let idle_timeout = add64 p.last_interaction_time (sign_extend32 f.timeout) in
    let session_max_time = add64 p.session_start_time (sign_extend32 f.duration) in
    if f.split_by_timeout && f.split_by_duration
    then min64 idle_timeout session_max_time
    else if f.split_by_timeout
    then idle_timeout
    else if f.split_by_duration
    then session_max_time
    else no_split_time

required_by : SessionProxy → Fixed → Bool
required_by p f = f.split_by_events && not (slt32 p.top_level_action_count f.events)

fixed-IsAlike :
    (c d : ServerConfiguration) (p : SessionProxy)
    → fixed_of c ≡ fixed_of d
    → IsAlike (with_configuration c p) (with_configuration d p)
unfolding IsAlike with_configuration calculate_next_split_time is_session_split_by_events_required
    fixed_of next_by required_by
fixed-IsAlike c d p same = ((λ i. next_by p (same i)), (λ i. required_by p (same i)), refl)

-- A proxy that has a configuration only ever takes others with the same fixed part.
run_configurations-with :
    (cs : List ServerConfiguration) (c : ServerConfiguration) (p : SessionProxy)
    → (d : ServerConfiguration) × (fixed_of d ≡ fixed_of c)
      × (run_configurations cs (with_configuration c p) ≡ with_configuration d p)
unfolding run_configurations on_server_configuration_update with_configuration
run_configurations-with [] c p = (c, refl, refl)
run_configurations-with (e ∷ cs) c p =
    let (d, same, run) = run_configurations-with cs (merge_configuration c e) p in
    (d, same ∙ fixed_of-merge c e, run)

-- The calls of `addToSplitByTimeout` for the first configuration of a proxy.
pub first_requests : ServerConfiguration → SessionProxy → ℕ
first_requests c p =
    if p.is_proxy_finished
    then 0
    else if is_session_split_by_session_duration_enabled c
        || is_session_split_by_idle_timeout_enabled c
    then 1
    else 0

pub told : ServerConfiguration → SessionProxy → SessionProxy
told c p = record p {
  proxy_configuration = some c;
  split_requests = p.split_requests + first_requests c p;
}

request-choice :
    (finished watched : Bool) (c : ServerConfiguration) (p : SessionProxy)
    → (if finished
        then with_configuration c p
        else if watched
        then record p { proxy_configuration = some c; split_requests = p.split_requests + 1 }
        else with_configuration c p)
      ≡ record p {
        proxy_configuration = some c;
        split_requests = p.split_requests + (if finished then 0 else if watched then 1 else 0);
      }
unfolding with_configuration
request-choice true watched c p = ground arith
request-choice false true c p = refl
request-choice false false c p = ground arith

on_server_configuration_update-first :
    (c : ServerConfiguration) (p : SessionProxy)
    → p.proxy_configuration ≡ none
    → on_server_configuration_update c p ≡ told c p
unfolding on_server_configuration_update told first_requests with_configuration
on_server_configuration_update-first c p absent = rw (absent) (
    request-choice p.is_proxy_finished
      (is_session_split_by_session_duration_enabled c || is_session_split_by_idle_timeout_enabled c)
      c p)

-- The first configuration settles when the sessions of a proxy are split, and the proxy is handed to the watchdog
-- once at most, if it is not finished and a time is to be watched: no later configuration changes any of this.
pub run_configurations-first :
    (first : ServerConfiguration) (later : List ServerConfiguration) (p : SessionProxy)
    → p.proxy_configuration ≡ none
    → IsAlike (run_configurations (first ∷ later) p) (told first p)
unfolding run_configurations told with_configuration
run_configurations-first first later p absent =
    let told_first = on_server_configuration_update-first first p absent in
    let (d, same, run) = run_configurations-with later first (told first p) in
    subst (λ q. IsAlike q (told first p))
      (sym ((λ i. run_configurations later (told_first i)) ∙ run))
      (fixed-IsAlike d first (told first p) same)
