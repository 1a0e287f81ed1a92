-- ===== src/Protocol/JsonResponse/Configured.antt =====
-- protocol/JsonResponseParser.cxx: the attributes of a whole response.
use mathlib.Core.Path.{fun_ext}
use openkit_native.Prelude.{refl, ℕ, ◌∙◌, ◌≡◌}
use openkit_native.Json.Value.{Fields}
use openkit_native.Protocol.Attributes.{
  ResponseAttribute, ResponseAttributes, application_id, is_capture, is_capture_crashes,
  is_capture_errors, json_response_defaults, max_beacon_size, max_events_per_session,
  max_session_duration, multiplicity, send_interval, server_id, session_idle_timeout, status,
  timestamp, traffic_control_percentage, visit_store_version,
}
use openkit_native.Protocol.JsonResponse.{
  apply_root_attributes, codes, get_json_number_from, get_long_value, json_attributes,
}
use openkit_native.Protocol.JsonResponse.Entries.{also, or_false, present-timestamp}
use openkit_native.Protocol.JsonResponse.Sections.{
  agent_set, and_then, application_set, apply_agent_configuration-set,
  apply_application_configuration-set, apply_dynamic_configuration-set, dynamic_set,
}
use openkit_native.Protocol.JsonResponse.Settings.{
  agent_section, app_section, configured, dynamic_section, has_entry, is_some, value_or,
}

module _ (truncated : ℕ → ℕ) where
  -- the four parts of `parse` as record updates
  parts : Fields → ResponseAttributes
  unfolding agent_set application_set dynamic_set agent_section app_section dynamic_section value_or
      is_some
  parts root =
      let r1 = agent_set truncated (agent_section root) json_response_defaults in
      let r2 = application_set truncated (app_section root) r1 in
      let r3 = dynamic_set truncated (dynamic_section root) r2 in
      let o = get_json_number_from root (codes "timestamp") in
      record r3 {
        timestamp_in_milliseconds =
            value_or (λ n. get_long_value truncated n) r3.timestamp_in_milliseconds o;
        is_attribute_set = also timestamp o r3.is_attribute_set;
      }

  json_attributes-parts : (root : Fields) → json_attributes truncated root ≡ parts root
  unfolding json_attributes apply_root_attributes parts
  json_attributes-parts root =
      let p1 =
        apply_agent_configuration-set truncated (agent_section root) json_response_defaults in
      let p2 = and_then p1 (apply_application_configuration-set truncated (app_section root)) in
      let p3 = and_then p2 (apply_dynamic_configuration-set truncated (dynamic_section root)) in
      and_then p3 (
        present-timestamp (λ n. get_long_value truncated n)
          (get_json_number_from root (codes "timestamp")))

  parts-has_entry :
      (root : Fields) (a : ResponseAttribute) → (parts root).is_attribute_set a ≡ has_entry root a
  unfolding parts has_entry
  parts-has_entry root max_beacon_size = refl
  parts-has_entry root max_session_duration = refl
  parts-has_entry root max_events_per_session = refl
  parts-has_entry root session_idle_timeout = refl
  parts-has_entry root send_interval = refl
  parts-has_entry root visit_store_version = refl
  parts-has_entry root is_capture = refl
  parts-has_entry root is_capture_crashes = refl
  parts-has_entry root is_capture_errors = refl
  parts-has_entry root traffic_control_percentage = refl
  parts-has_entry root application_id = or_false _
  parts-has_entry root multiplicity = refl
  parts-has_entry root server_id = refl
  parts-has_entry root status = or_false _
  parts-has_entry root timestamp = refl

  pub json_attributes-configured :
      (root : Fields) → json_attributes truncated root ≡ configured truncated root
  unfolding parts configured
  json_attributes-configured root = json_attributes-parts root ∙ (λ i.
      record (configured truncated root) { is_attribute_set = fun_ext (parts-has_entry root) i })
