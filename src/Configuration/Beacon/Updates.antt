-- ===== src/Configuration/Beacon/Updates.antt =====
-- core/configuration/BeaconConfiguration.cxx: any sequence of updates of one beacon's configuration.
use mathlib.Core.Path.{subst}
use openkit_native.Prelude.{
  Bool, Bool-cases, List, Option, [], false, if-true, inl, inr, none, refl, some, sym, true, ◌∙◌,
  ◌∷◌, ◌≡◌, ◌⊎◌,
}
use openkit_native.Configuration.Beacon.{
  BeaconConfiguration, ConfigurationPointer, default_instance, initialize_server_configuration,
  null_configuration, other_instance, server_configuration_or_default,
  set_server_configuration_update_callback, take_over, update_capture_with,
  update_server_configuration,
}
use openkit_native.Configuration.Server.{
  ServerConfiguration, from_configuration, merge_configuration, with_capture_state,
}
use openkit_native.Configuration.Server.Merge.{
  Fixed, fixed_of, fixed_of-from_configuration, fixed_of-merge, fixed_of-with_capture_state,
}

pub data Update : Type 0 where
  initialize : ConfigurationPointer → Update
  update : ConfigurationPointer → Update
  capture_with : Bool → Update
  set_callback : Bool → Update

unfoldable pub perform_update : Update → BeaconConfiguration → Option BeaconConfiguration
perform_update (initialize p) b = some (initialize_server_configuration p b)
perform_update (update p) b = update_server_configuration p b
perform_update (capture_with state) b = some (update_capture_with state b)
perform_update (set_callback given) b = some (set_server_configuration_update_callback given b)

unfoldable pub run_updates : List Update → BeaconConfiguration → Option BeaconConfiguration
run_updates [] b = some b
run_updates (u ∷ us) b = elim (perform_update u b) [ none ↦ none | some b' ↦ run_updates us b' ]

-- A configuration that is marked as set is there.
abbrev pub IsSound : BeaconConfiguration → Type 0
IsSound b =
    (b.is_server_configuration_set ≡ false)
    ⊎ ((c : ServerConfiguration) × (b.server_configuration ≡ some c))

-- It is set, and its fixed part is the given one.
pub record HasFixed (f : Fixed) (b : BeaconConfiguration) : Type 0 where
  pub configuration : ServerConfiguration
  pub there : b.server_configuration ≡ some configuration
  pub set : b.is_server_configuration_set ≡ true
  pub same : fixed_of configuration ≡ f

-- There is a result, and it has the property.
abbrev Goes : (BeaconConfiguration → Type 0) → Option BeaconConfiguration → Type 0
Goes P o = (b : BeaconConfiguration) × (o ≡ some b) × P b

initialize-IsSound :
    (c : ServerConfiguration) (b : BeaconConfiguration)
    → IsSound b
    → IsSound (initialize_server_configuration (other_instance c) b)
unfolding initialize_server_configuration
initialize-IsSound c b h = elim (Bool-cases b.is_server_configuration_set) [
  | inl set ↦ subst IsSound (sym (if-true _ _ set)) h
  | inr unset ↦ rw unset (inr (c, refl))
]

take_over-IsSound :
    (new : ServerConfiguration) (b : BeaconConfiguration)
    → IsSound b
    → Goes IsSound (take_over new b)
unfolding take_over
take_over-IsSound new b (inl unset) = rw unset (_, refl, inr (new, refl))
take_over-IsSound new b (inr (c, there)) = elim (Bool-cases b.is_server_configuration_set) [
  | inl set ↦ rw (set, there) (_, refl, inr (merge_configuration c new, refl))
  | inr unset ↦ rw unset (_, refl, inr (new, refl))
]

perform-IsSound :
    (u : Update) (b : BeaconConfiguration) → IsSound b → Goes IsSound (perform_update u b)
unfolding perform_update update_server_configuration update_capture_with
    set_server_configuration_update_callback
perform-IsSound (initialize null_configuration) b h =
    (_, refl, unfold initialize_server_configuration in h)
perform-IsSound (initialize default_instance) b h =
    (_, refl, unfold initialize_server_configuration in h)
perform-IsSound (initialize (other_instance c)) b h = (_, refl, initialize-IsSound c b h)
perform-IsSound (update null_configuration) b h = (b, refl, h)
perform-IsSound (update default_instance) b h = take_over-IsSound _ b h
perform-IsSound (update (other_instance c)) b h = take_over-IsSound c b h
perform-IsSound (capture_with state) b h = (_, refl, inr (_, refl))
perform-IsSound (set_callback given) b h = (_, refl, h)

module _ (f : Fixed) where
  take_over-HasFixed :
      (new : ServerConfiguration) (b : BeaconConfiguration)
      → HasFixed f b
      → Goes (HasFixed f) (take_over new b)
  unfolding take_over
  take_over-HasFixed new b h =
      rw (h.set, h.there)
        (
          _,
          refl,
          record {
            configuration = merge_configuration h.configuration new;
            there = refl;
            set = h.set;
            same = fixed_of-merge h.configuration new ∙ h.same;
          },
        )

  initialize-HasFixed :
      (p : ConfigurationPointer) (b : BeaconConfiguration)
      → HasFixed f b
      → HasFixed f (initialize_server_configuration p b)
  unfolding initialize_server_configuration
  initialize-HasFixed null_configuration b h = h
  initialize-HasFixed default_instance b h = h
  initialize-HasFixed (other_instance c) b h = subst (HasFixed f) (sym (if-true _ _ h.set)) h

  perform-HasFixed :
      (u : Update) (b : BeaconConfiguration) → HasFixed f b → Goes (HasFixed f) (perform_update u b)
  unfolding perform_update update_server_configuration update_capture_with
      set_server_configuration_update_callback
  perform-HasFixed (initialize p) b h = (_, refl, initialize-HasFixed p b h)
  perform-HasFixed (update null_configuration) b h = (b, refl, h)
  perform-HasFixed (update default_instance) b h = take_over-HasFixed _ b h
  perform-HasFixed (update (other_instance c)) b h = take_over-HasFixed c b h
  perform-HasFixed (capture_with state) b h = (
    _,
    refl,
    record {
      configuration = with_capture_state state (from_configuration h.configuration);
      there = unfold server_configuration_or_default in rw h.there;
      set = refl;
      same =
          fixed_of-with_capture_state state (from_configuration h.configuration)
          ∙ (fixed_of-from_configuration h.configuration ∙ h.same);
    },
  )
  perform-HasFixed (set_callback given) b h = (
    _,
    refl,
    record { configuration = h.configuration; there = h.there; set = h.set; same = h.same },
  )

run-Goes :
    (P : BeaconConfiguration → Type 0)
    → ((u : Update) (b : BeaconConfiguration) → P b → Goes P (perform_update u b))
    → (us : List Update) (b : BeaconConfiguration) → P b
    → Goes P (run_updates us b)
unfolding run_updates
run-Goes P step [] b h = (b, refl, h)
run-Goes P step (u ∷ us) b h =
    let (b', goes, h') = step u b h in rw (goes, run_updates) (run-Goes P step us b' h')

-- From a sound configuration, and so from a new one, no sequence of updates follows the null pointer,
-- and the configuration it leaves is sound: if it is marked as set, it is there.
pub run_updates-IsSound :
    (us : List Update) (b : BeaconConfiguration)
    → IsSound b
    → (b' : BeaconConfiguration) × (run_updates us b ≡ some b') × IsSound b'
run_updates-IsSound us b h = run-Goes IsSound perform-IsSound us b h

-- Once the configuration of a beacon is set, every sequence of updates succeeds and keeps its server,
-- its multiplicity, the bounds and switches by which its session is split, the version of the visit
-- store and the percentage of traffic control, as the getters report them.
pub run_updates-HasFixed :
    (f : Fixed) (us : List Update) (b : BeaconConfiguration)
    → HasFixed f b
    → (b' : BeaconConfiguration) × (run_updates us b ≡ some b') × HasFixed f b'
run_updates-HasFixed f us b h = run-Goes (HasFixed f) (perform-HasFixed f) us b h
