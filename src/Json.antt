-- ===== src/Json.antt =====
-- JSON, and the deep merge of two objects (`deepMerge` of
-- src/modules/tenant/repositories/tenant.repository.ts). A number is the string that it is written
-- as, and `undefined` is the value of a class field that was not sent. An object is the list of its
-- fields in the order of insertion; the key "__proto__", which JavaScript treats apart, is taken as any
-- other.
pub mod Merge
pub mod Serialized
use text.Mathlib.Text.{◌==◌ as str_eq}
use hr_saas_platform.Shared.{true, false, String, Bool, Option, none, some, if◌then◌else◌}

mutual
  pub data Json : Type 0 where
    null undefined : Json
    boolean : Bool → Json
    number string : String → Json
    array : Values → Json
    object : Fields → Json

  pub data Values : Type 0 where
    no_more : Values
    item : Json → Values → Values

  pub data Fields : Type 0 where
    end : Fields
    field : String → Json → Fields → Fields

-- `o[k]`
unfoldable pub get : String → Fields → Option Json
get k end = none
get k (field j v fs) = if str_eq k j then some v else get k fs

-- `o[k] = v`
unfoldable pub set : String → Json → Fields → Fields
set k v end = field k v end
set k v (field j w fs) = if str_eq k j then field j v fs else field j w (set k v fs)

-- `{ ...a, ...b }`
unfoldable pub spread : Fields → Fields → Fields
unfolding set
spread a end = a
spread a (field k v fs) = spread (set k v a) fs

unfoldable mutual
  -- What a key of the source becomes, for what the target has there.
  pub merged : Option Json → Json → Json
  merged old null = null
  merged old undefined = undefined
  merged old (boolean b) = boolean b
  merged old (number s) = number s
  merged old (string s) = string s
  merged old (array vs) = array vs
  merged (some (object target)) (object source) = object (merge_onto target target source)
  merged old (object source) = object source

  -- The loop over the keys of the source, with the result so far.
  pub merge_onto : Fields → Fields → Fields → Fields
  merge_onto target result end = result
  merge_onto target result (field k v fs) =
      merge_onto target (set k (merged (get k target) v) result) fs

unfoldable pub deep_merge : Fields → Fields → Fields
unfolding merge_onto
deep_merge target source = merge_onto target target source

abbrev pub is_undefined : Json → Bool
is_undefined undefined = true
is_undefined v = false

-- `JSON.stringify`, which drizzle calls for a jsonb column, leaves out fields that are undefined. Here
-- they are fields of the outermost object: what a section holds was parsed from JSON.
unfoldable pub serialized : Fields → Fields
serialized end = end
serialized (field k v fs) =
    let rest = serialized fs in if is_undefined v then rest else field k v rest
