-- ===== src/Json/Value.antt =====
-- util/json/objects: the values that the JSON parser builds. A text is the list of its bytes.
use openkit_native.Prelude.{
  Bool, List, Option, [], false, if◌then◌else◌, none, some, true, ℕ, ◌&&◌, ◌==◌, ◌∷◌,
}

-- A JsonNumberValue: an `int64_t` by its 64 bits, or the bits of a double.
pub data JsonNumber : Type 0 where
  long : ℕ → JsonNumber
  double : ℕ → JsonNumber

-- `missing` is a null pointer. A `std::list` grows at its end, so the last element stands outermost.
mutual
  pub data JsonValue : Type 0 where
    missing : JsonValue
    null : JsonValue
    boolean : Bool → JsonValue
    number : JsonNumber → JsonValue
    string : List ℕ → JsonValue
    array : Items → JsonValue
    object : Fields → JsonValue

  pub data Items : Type 0 where
    no_items : Items
    push_back : Items → JsonValue → Items

  pub data Fields : Type 0 where
    no_fields : Fields
    field : List ℕ → JsonValue → Fields → Fields

unfoldable pub same_bytes : List ℕ → List ℕ → Bool
same_bytes [] [] = true
same_bytes [] (d ∷ ds) = false
same_bytes (c ∷ cs) [] = false
same_bytes (c ∷ cs) (d ∷ ds) = (c == d) && same_bytes cs ds

-- `(*backingMap)[key] = value`
unfoldable pub put_field : List ℕ → JsonValue → Fields → Fields
put_field key value no_fields = field key value no_fields
put_field key value (field k v rest) =
    if same_bytes k key then field k value rest else field k v (put_field key value rest)

-- `find`
unfoldable pub find_field : List ℕ → Fields → Option JsonValue
find_field key no_fields = none
find_field key (field k v rest) = if same_bytes k key then some v else find_field key rest
