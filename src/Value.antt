-- ===== src/Value.antt =====
-- Python values as `json.loads` makes them, and what the handlers read of a message. The fields of
-- a `dict` stand in the order of the text.
use call_backend.Prelude.{
  ℕ, String, Bool, false, Option, none, some, List, [], ◌∷◌, if◌then◌else◌, ◌==◌, nat_eq, string_eq,
  same_elements,
}

mutual
  pub data Value : Type 0 where
    null : Value
    bool : Bool → Value
    num : ℕ → Value
    text : String → Value
    array : Items → Value
    dict : Fields → Value

  pub data Items : Type 0 where
    nil : Items
    cons : Value → Items → Items

  pub data Fields : Type 0 where
    end : Fields
    field : String → Value → Fields → Fields

unfoldable pub field_names : Fields → List String
field_names end = []
field_names (field k v fs) = k ∷ field_names fs

-- message.get(key)
unfoldable pub get_field : Fields → String → Option Value
get_field end key = none
get_field (field k v fs) key = if k == key then some v else get_field fs key

-- isinstance(value, str)
unfoldable pub as_text : Option Value → Option String
as_text (some (text s)) = some s
as_text _ = none

-- `not isinstance(message, dict) or set(message) != expected`, negated: the fields, or nothing.
unfoldable pub exact_fields : List String → Value → Option Fields
unfolding same_elements field_names
exact_fields expected (dict fs) = if same_elements (field_names fs) expected then some fs else none
exact_fields expected _ = none

-- `value == n` of Python, where `True` equals 1 and `False` equals 0.
unfoldable pub equals_number : Option Value → ℕ → Bool
equals_number (some (num m)) n = m == n
equals_number (some (bool b)) n = (if b then 1 else 0) == n
equals_number _ n = false
