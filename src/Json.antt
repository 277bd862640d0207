-- ===== src/Json.antt =====
-- The values that encoding/json decodes into `any`; a number keeps its literal, as UseNumber does.
use my_kb.Prelude.{
  Bool, true, false, String, ◌==◌, Option, none, some, List, [], ◌∷◌, if◌then◌else◌,
}

mutual
  pub data Json : Type 0 where
    null : Json
    boolean : Bool → Json
    number : String → Json
    text : String → Json
    array : Elements → Json
    object : Fields → Json

  pub data Elements : Type 0 where
    nil : Elements
    element : Json → Elements → Elements

  -- The keys of a map are distinct.
  pub data Fields : Type 0 where
    end : Fields
    field : String → Json → Fields → Fields

unfoldable pub elements : Elements → List Json
elements nil = []
elements (element v vs) = v ∷ elements vs

-- `object[key]`, which is nil where the key is missing.
unfoldable pub get : String → Fields → Json
get key end = null
get key (field k v fs) = let rest = get key fs in if k == key then v else rest

-- `value.(map[string]any)`
unfoldable pub as_object : Json → Option Fields
as_object (object fs) = some fs
as_object _ = none

-- `value.([]any)`
unfoldable pub as_array : Json → Option (List Json)
unfolding elements
as_array (array vs) = some (elements vs)
as_array _ = none

-- `value.(string)`
unfoldable pub as_text : Json → Option String
as_text (text s) = some s
as_text _ = none

unfoldable pub is_null : Json → Bool
is_null null = true
is_null _ = false

-- `value == true`
unfoldable pub is_true : Json → Bool
is_true (boolean b) = b
is_true _ = false

-- `value == s`
unfoldable pub is_text : String → Json → Bool
is_text s (text t) = t == s
is_text s _ = false

-- The entries of stringsValue that are texts and not empty.
texts_of : List Json → List String
texts_of [] = []
texts_of (v ∷ vs) =
    let rest = texts_of vs in elim v [ text s ↦ (if s == "" then rest else s ∷ rest) | _ ↦ rest ]

-- stringsValue
unfoldable pub strings_value : Json → List String
unfolding texts_of elements
strings_value (text s) = if s == "" then [] else s ∷ []
strings_value (array vs) = texts_of (elements vs)
strings_value _ = []
