-- ===== src/Caching/Record.antt =====
-- core/caching/BeaconCacheRecord.cxx: one cached piece of serialized data.
use openkit_native.Prelude.{Bool, false, if◌then◌else◌, true, ℕ, ◌%◌, ◌^◌}
use openkit_native.Text.{Utf8String, byte_size, is_empty_string}

pub record Record : Type 0 where
  pub timestamp : ℕ
  pub text : Utf8String
  pub marked_for_sending : Bool

unfoldable pub new_record : ℕ → Utf8String → Record
new_record timestamp text = record {
  timestamp = timestamp;
  text = text;
  marked_for_sending = false;
}

unfoldable pub data_size_in_bytes : Record → ℕ
unfolding is_empty_string byte_size
data_size_in_bytes r = if is_empty_string r.text then 0 else byte_size r.text % 2 ^ 64

unfoldable pub mark_for_sending : Record → Record
mark_for_sending r = record r { marked_for_sending = true }

unfoldable pub unset_sending : Record → Record
unset_sending r = record r { marked_for_sending = false }
