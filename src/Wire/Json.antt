-- ===== src/Wire/Json.antt =====
-- What `JSON.parse` gives: a value, whose arrays and objects hold values. `undefined` is `none`,
-- so `value.key` is an `Option Json`. Keys are literals of the program.
use Prim.Native.String.{String}
use text.Mathlib.Text.{◌==◌ as str_eq}
use cyberstalk_me.Base.{
  Bool, true, false, Option, none, some, List, [], ◌∷◌, Text, all, if◌then◌else◌,
}
use cyberstalk_me.Numbers.{Number}

mutual
  pub data Json : Type 0 where
    null : Json
    bool : Bool → Json
    num : Number → Json
    str : Text → Json
    arr : Items → Json
    obj : Fields → Json

  pub data Items : Type 0 where
    nil : Items
    cons : Json → Items → Items

  pub data Fields : Type 0 where
    end : Fields
    field : String → Json → Fields → Fields

abbrev pub elems : Items → List Json
elems nil = []
elems (cons v vs) = v ∷ elems vs

abbrev pub items : List Json → Items
items [] = nil
items (v ∷ vs) = cons v (items vs)

abbrev pub get_field : String → Fields → Option Json
get_field key end = none
get_field key (field k v rest) = if str_eq k key then some v else get_field key rest

-- `value.key`, asked of objects only.
abbrev pub get : String → Option Json → Option Json
get key (some (obj fields)) = get_field key fields
get key _ = none

-- `typeof value === '…'`, `value === null`, `value === undefined`.
abbrev pub is_string : Option Json → Bool
is_string (some (str s)) = true
is_string _ = false

abbrev pub is_number : Option Json → Bool
is_number (some (num n)) = true
is_number _ = false

abbrev pub is_boolean : Option Json → Bool
is_boolean (some (bool b)) = true
is_boolean _ = false

abbrev pub is_null : Option Json → Bool
is_null (some null) = true
is_null _ = false

abbrev pub is_undefined : Option Json → Bool
is_undefined none = true
is_undefined _ = false

-- `Array.isArray(value) && value.every(guard)`.
abbrev pub every : (Option Json → Bool) → Option Json → Bool
every guard (some (arr vs)) = all (λ v. guard (some v)) (elems vs)
every guard _ = false
