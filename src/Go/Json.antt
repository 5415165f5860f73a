-- ===== src/Go/Json.antt =====
-- A decoded JSON value, the `any` of encoding/json. Its numbers, which are float64 in Go, are a type
-- parameter.
use cindex.Prelude.{Bool, List, [], ◌∷◌, Text, text_eq, if◌then◌else◌}

mutual
  pub data Json (N : Type 0) : Type 0 where
    null : Json N
    boolean : Bool → Json N
    number : N → Json N
    string : Text → Json N
    array : Items N → Json N
    object : Members N → Json N

  pub data Items (N : Type 0) : Type 0 where
    no_items : Items N
    item : Json N → Items N → Items N

  pub data Members (N : Type 0) : Type 0 where
    no_members : Members N
    member : Text → Json N → Members N → Members N

module _ {N : Type 0} where
  -- data[key], nil if there is no such key.
  unfoldable pub get : Text → Members N → Json N
  get key no_members = null
  get key (member k v rest) = if text_eq k key then v else get key rest

  items : Items N → List (Json N)
  items no_items = []
  items (item v rest) = v ∷ items rest

  -- v.([]any), v.(map[string]any) and v.(string) with the zero value where the type is another.
  unfoldable pub as_array : Json N → List (Json N)
  unfolding items
  as_array (array vs) = items vs
  as_array _ = []

  unfoldable pub as_object : Json N → Members N
  as_object (object m) = m
  as_object _ = no_members

  unfoldable pub as_string : Json N → Text
  as_string (string s) = s
  as_string _ = []

  pub entries : Members N → List (Text × Json N)
  entries no_members = []
  entries (member k v rest) = (k, v) ∷ entries rest
