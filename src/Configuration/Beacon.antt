-- ===== src/Configuration/Beacon.antt =====
-- core/configuration/BeaconConfiguration.cxx: the server configuration of one beacon. The callback is
-- told of a configuration; `notified` lists what it was told.
use openkit_native.Prelude.{
  Bool, List, Option, [], false, if◌then◌else◌, none, some, true, ◌++◌, ◌∷◌,
}
use openkit_native.Configuration.Server.{
  ServerConfiguration, default_server_configuration, from_configuration, merge_configuration,
  with_capture_state,
}
use openkit_native.Caching.Entry.Bytes.{merged}
pub mod Updates

pub record BeaconConfiguration : Type 0 where
  pub server_configuration : Option ServerConfiguration
  pub is_server_configuration_set : Bool
  pub has_callback : Bool
  pub notified : List ServerConfiguration

-- A pointer to a configuration. The default instance is the one that is compared by its address.
pub data ConfigurationPointer : Type 0 where
  null_configuration : ConfigurationPointer
  default_instance : ConfigurationPointer
  other_instance : ServerConfiguration → ConfigurationPointer

abbrev pub pointed_to : ConfigurationPointer → Option ServerConfiguration
pointed_to null_configuration = none
pointed_to default_instance = some default_server_configuration
pointed_to (other_instance c) = some c

abbrev pub new_beacon_configuration : BeaconConfiguration
new_beacon_configuration = record {
  server_configuration = none;
  is_server_configuration_set = false;
  has_callback = false;
  notified = [];
}

abbrev notify : ServerConfiguration → BeaconConfiguration → BeaconConfiguration
notify c b = record b { notified = if b.has_callback then b.notified ++ c ∷ [] else b.notified }

unfoldable pub server_configuration_or_default : BeaconConfiguration → ServerConfiguration
server_configuration_or_default b = elim b.server_configuration [
  | none ↦ default_server_configuration
  | some c ↦ c
]

-- The flag stays as it is: the first update then replaces this configuration.
unfoldable pub initialize_server_configuration :
    ConfigurationPointer → BeaconConfiguration → BeaconConfiguration
initialize_server_configuration null_configuration b = b
initialize_server_configuration default_instance b = b
initialize_server_configuration (other_instance c) b =
    if b.is_server_configuration_set
    then b
    else notify c (record b { server_configuration = some c })

-- Once the flag is set there is a configuration to merge into; without one the code would follow a null
-- pointer, and the model returns none.
unfoldable pub take_over : ServerConfiguration → BeaconConfiguration → Option BeaconConfiguration
take_over new b =
    if b.is_server_configuration_set
    then elim b.server_configuration [
      | none ↦ none
      | some c ↦
          let merged = merge_configuration c new in
          some (notify merged (record b { server_configuration = some merged }))
    ]
    else some (
        notify new
          (record b { server_configuration = some new; is_server_configuration_set = true }))

unfoldable pub update_server_configuration :
    ConfigurationPointer → BeaconConfiguration → Option BeaconConfiguration
update_server_configuration p b = elim (pointed_to p) [ none ↦ some b | some new ↦ take_over new b ]

unfoldable pub update_capture_with : Bool → BeaconConfiguration → BeaconConfiguration
unfolding server_configuration_or_default
update_capture_with state b = record b {
  server_configuration =
      some (with_capture_state state (from_configuration (server_configuration_or_default b)));
  is_server_configuration_set = true;
}

unfoldable pub set_server_configuration_update_callback :
    Bool → BeaconConfiguration → BeaconConfiguration
set_server_configuration_update_callback given b = record b { has_callback = given }
