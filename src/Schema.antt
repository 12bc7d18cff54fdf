-- ===== src/Schema.antt =====
-- provider/resource.go and provider/schema_defaults.go: the values of a resource with the defaults
-- that the SDK does not set for sets, lists and maps.
pub mod Laws
pub mod Keys
pub mod Hashing
pub mod Kinds
pub mod Tables
use terraform_provider_nixos.Base.{
  ℕ, String, Bool, true, false, List, [], ◌∷◌, Option, none, some, Outcome, ok, err, panic, raised,
  type_assertion, ◌>>=◌,
}
use terraform_provider_nixos.Base.Int.{pos}
use terraform_provider_nixos.Base.Assoc.{Map, lookup, put_all}
use terraform_provider_nixos.Settings.{
  ResourceBox, Value, Items, Fields, nil, bool, int, str, list, set, map, end, item, none_left,
  field, put_field,
}

-- `schema.ValueType`, the types that the tables use
pub data Kind : Type 0 where
  type_bool type_int type_string type_list type_map type_set : Kind

-- `schema.Schema` but for its element and its description; `default_func` is what the function
-- returns
pub record Traits : Type 0 where
  pub kind : Kind
  pub optional : Bool
  pub required : Bool
  pub computed : Bool
  pub min_items : ℕ
  pub max_items : ℕ
  pub default : Value
  pub default_func : Option (Outcome Value)

-- the zero value of all traits but the type
abbrev pub traits : Kind → Traits
traits kind = record {
  kind = kind;
  optional = false;
  required = false;
  computed = false;
  min_items = 0;
  max_items = 0;
  default = nil;
  default_func = none;
}

mutual
  pub data Schema : Type 0 where
    schema : Traits → Elem → Schema

  -- `Elem`: nil, a `*schema.Schema`, or a `*schema.Resource` with its attributes
  pub data Elem : Type 0 where
    no_elem : Elem
    elem_schema : Schema → Elem
    elem_resource : Attributes → Elem

  pub data Attributes : Type 0 where
    no_attributes : Attributes
    attribute : String → Schema → Attributes → Attributes

abbrev pub traits_of : Schema → Traits
traits_of (schema t e) = t

abbrev pub attributes_of : Map Schema → Attributes
attributes_of [] = no_attributes
attributes_of ((k, s) ∷ m) = attribute k s (attributes_of m)

abbrev pub map_of : Attributes → Map Schema
map_of no_attributes = []
map_of (attribute k s rest) = (k, s) ∷ map_of rest

-- `SchemaMapExtend`
unfoldable pub schema_map_extend : Map Schema → Map Schema → Map Schema
schema_map_extend original extension = put_all (put_all [] original) extension

-- `s.Elem.(*schema.Resource).Schema`
unfoldable pub subschema : Schema → Outcome (Map Schema)
subschema (schema t (elem_resource attributes)) = ok (map_of attributes)
subschema (schema t e) = panic type_assertion

-- the default of one attribute
unfoldable pub default_of : Schema → Outcome Value
default_of s = elim (traits_of s).default_func [ none ↦ ok (traits_of s).default | some v ↦ v ]

-- the loop of `DefaultMapFromSchema`
unfoldable pub default_fields : Fields → Map Schema → Outcome Fields
unfolding default_of
default_fields fs [] = ok fs
default_fields fs ((k, s) ∷ rest) = do v ← default_of s; default_fields (put_field k v fs) rest

-- the function that `DefaultMapFromSchema` returns: a list with one map
unfoldable pub default_block : Map Schema → Outcome Value
unfolding default_fields
default_block sub = do fs ← default_fields end sub; ok (list (item (map fs) none_left))

-- `DefaultMapFromSchema`, whose assertion is not part of the function that it returns
unfoldable pub default_map_from_schema : Schema → Outcome (Outcome Value)
unfolding subschema default_block
default_map_from_schema s = do sub ← subschema s; ok (default_block sub)

set_default_func : Outcome Value → Schema → Schema
set_default_func f (schema t e) = schema (record t { default_func = some f }) e

-- `SchemaWithDefaultFuncCtr`
unfoldable pub schema_with_default_func_ctr :
    (Schema → Outcome (Outcome Value)) → Schema → Outcome Schema
unfolding set_default_func
schema_with_default_func_ctr ctr s = do f ← ctr s; ok (set_default_func f s)

abbrev pub default_user : String
default_user = "root"

unfoldable pub default_ssh_config : Outcome Value
default_ssh_config = ok (map (field "user" (str default_user) end))

unfoldable pub default_address_filter : Outcome Value
default_address_filter = ok (list (item (str "::/0") (item (str "0.0.0.0/0") none_left)))

unfoldable pub default_address_priority : Outcome Value
default_address_priority =
    ok (map (field "0.0.0.0/0" (int (pos 1)) (field "::/0" (int (pos 0)) end)))

-- whether a set, a list or a map is empty; a value of another type fails the assertion
is_empty_value : Kind → Value → Outcome Bool
is_empty_value type_set (set none_left) = ok true
is_empty_value type_set (set (item v rest)) = ok false
is_empty_value type_list (list none_left) = ok true
is_empty_value type_list (list (item v rest)) = ok false
is_empty_value type_map (map end) = ok true
is_empty_value type_map (map (field k v fs)) = ok false
is_empty_value type_bool v = ok false
is_empty_value type_int v = ok false
is_empty_value type_string v = ok false
is_empty_value kind v = panic type_assertion

-- a value that is nil gives way to the plain default
or_default : Schema → Value → Value
or_default s nil = (traits_of s).default
or_default s v = v

-- what a default function returned, where its error is a panic
or_raise : Outcome Value → Outcome Value
or_raise (ok v) = ok v
or_raise (err e) = panic (raised e)
or_raise (panic p) = panic p

module _ (new_set : Items → Items) where
  -- the default of a set is made a set, by `schema.NewSet`
  as_default : Kind → Value → Outcome Value
  as_default type_set (list items) = ok (set (new_set items))
  as_default type_set v = panic type_assertion
  as_default kind v = ok v

  -- the value with its schema
  value_with : Schema → Value → Outcome Value
  unfolding is_empty_value or_default or_raise as_default
  value_with s v = elim (traits_of s).default_func [
    | none ↦ ok (or_default s v)
    | some default ↦ do
      empty ← is_empty_value (traits_of s).kind v
      elim empty [
        | true ↦ or_raise default >>= as_default (traits_of s).kind
        | false ↦ ok (or_default s v)
      ]
  ]

  -- `ResourceData.Get`
  unfoldable pub get : Map Schema → ResourceBox → String → Outcome Value
  unfolding value_with
  get attributes box key = elim (lookup key attributes) [
    | none ↦ ok nil
    | some s ↦ value_with s (box key)
  ]
