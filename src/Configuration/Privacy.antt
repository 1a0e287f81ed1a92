-- ===== src/Configuration/Privacy.antt =====
-- core/configuration/PrivacyConfiguration.cxx: what the levels that the application chose allow to report.
use openkit_native.Prelude.{Bool, false, true}

pub data DataCollectionLevel : Type 0 where
  level_off performance user_behavior : DataCollectionLevel

pub data CrashReportingLevel : Type 0 where
  crashes_off opt_out_crashes opt_in_crashes : CrashReportingLevel

pub record PrivacyConfiguration : Type 0 where
  pub data_collection_level : DataCollectionLevel
  pub crash_reporting_level : CrashReportingLevel

unfoldable pub is_user_behavior : DataCollectionLevel → Bool
is_user_behavior user_behavior = true
is_user_behavior level_off = false
is_user_behavior performance = false

unfoldable pub is_not_off : DataCollectionLevel → Bool
is_not_off level_off = false
is_not_off performance = true
is_not_off user_behavior = true

unfoldable pub is_opt_in : CrashReportingLevel → Bool
is_opt_in opt_in_crashes = true
is_opt_in crashes_off = false
is_opt_in opt_out_crashes = false

unfoldable pub is_session_reporting_allowed : PrivacyConfiguration → Bool
unfolding is_not_off
is_session_reporting_allowed p = is_not_off p.data_collection_level

unfoldable pub is_action_reporting_allowed : PrivacyConfiguration → Bool
unfolding is_not_off
is_action_reporting_allowed p = is_not_off p.data_collection_level

unfoldable pub is_value_reporting_allowed : PrivacyConfiguration → Bool
unfolding is_user_behavior
is_value_reporting_allowed p = is_user_behavior p.data_collection_level

unfoldable pub is_event_reporting_allowed : PrivacyConfiguration → Bool
unfolding is_user_behavior
is_event_reporting_allowed p = is_user_behavior p.data_collection_level

unfoldable pub is_error_reporting_allowed : PrivacyConfiguration → Bool
unfolding is_not_off
is_error_reporting_allowed p = is_not_off p.data_collection_level

unfoldable pub is_user_identification_allowed : PrivacyConfiguration → Bool
unfolding is_user_behavior
is_user_identification_allowed p = is_user_behavior p.data_collection_level

unfoldable pub is_device_id_sending_allowed : PrivacyConfiguration → Bool
unfolding is_user_behavior
is_device_id_sending_allowed p = is_user_behavior p.data_collection_level

unfoldable pub is_session_number_reporting_allowed : PrivacyConfiguration → Bool
unfolding is_user_behavior
is_session_number_reporting_allowed p = is_user_behavior p.data_collection_level

unfoldable pub is_web_request_tracing_allowed : PrivacyConfiguration → Bool
unfolding is_not_off
is_web_request_tracing_allowed p = is_not_off p.data_collection_level

unfoldable pub is_crash_reporting_allowed : PrivacyConfiguration → Bool
unfolding is_opt_in
is_crash_reporting_allowed p = is_opt_in p.crash_reporting_level
