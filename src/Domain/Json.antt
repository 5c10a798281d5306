-- ===== src/Domain/Json.antt =====
-- `JsonPayload` of domain/json_codec.py: the values of JSON, with integers and decimals by sign and
-- magnitude, and the reading of an object.
use crytpo_data.Shared.{ℕ, Bool, Option, none, some, List, [], ◌∷◌, String, str_eq, if◌then◌else◌}
use crytpo_data.Shared.Decimal.{Decimal}

mutual
  pub data Json : Type 0 where
    null : Json
    boolean : Bool → Json
    integral : (is_negative : Bool) → ℕ → Json
    decimal : (is_negative : Bool) → Decimal → Json
    text : String → Json
    array : Items → Json
    object : Fields → Json

  pub data Items : Type 0 where
    nil : Items
    cons : Json → Items → Items

  pub data Fields : Type 0 where
    end : Fields
    field : String → Json → Fields → Fields

abbrev pub items : Items → List Json
items nil = []
items (cons j js) = j ∷ items js

-- `key in value` and `value[key]`
abbrev pub get_field : String → Fields → Option Json
get_field key end = none
get_field key (field k j fs) = if str_eq key k then some j else get_field key fs

abbrev pub field_names : Fields → List String
field_names end = []
field_names (field k j fs) = k ∷ field_names fs
