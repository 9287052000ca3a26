-- ===== src/Pii/Json.antt =====
-- The values that the PII layer walks: what a parsed JSON text gives, and any other JavaScript
-- value as `other` (undefined, a bigint, an instance of a class), which is never walked into.
-- A plain object is its own enumerable keys in order. An own key `__proto__` is left out.
pub mod Lookup
use lupid_sdk.Prelude.{
  ℕ, zero, suc, max, String, Bool, Option, none, some, List, [], ◌∷◌, ◌==◌, if◌then◌else◌,
}

mutual
  pub data Value : Type 0 where
    null : Value
    bool : Bool → Value
    num : String → Value
    text : String → Value
    other : String → Value
    arr : Items → Value
    obj : Fields → Value

  pub data Items : Type 0 where
    no_items : Items
    item : Value → Items → Items

  pub data Fields : Type 0 where
    no_fields : Fields
    field : String → Value → Fields → Fields

unfoldable mutual
  pub depth : Value → ℕ
  depth (arr xs) = suc (depth_items xs)
  depth (obj fs) = suc (depth_fields fs)
  depth _ = 0

  pub depth_items : Items → ℕ
  depth_items no_items = 0
  depth_items (item x xs) = max (depth x) (depth_items xs)

  pub depth_fields : Fields → ℕ
  depth_fields no_fields = 0
  depth_fields (field k v fs) = max (depth v) (depth_fields fs)

-- `Object.prototype.hasOwnProperty.call(obj, k) ? obj[k] : none`
unfoldable pub get_field : String → Fields → Option Value
get_field k no_fields = none
get_field k (field j v fs) = if j == k then some v else get_field k fs

-- `{ ...obj, [k]: w }` for a key that `obj` has.
unfoldable pub set_field : String → Value → Fields → Fields
set_field k w no_fields = field k w no_fields
set_field k w (field j v fs) = if j == k then field j w fs else field j v (set_field k w fs)

-- `delete next[k]`
unfoldable pub delete_field : String → Fields → Fields
delete_field k no_fields = no_fields
delete_field k (field j v fs) = if j == k then delete_field k fs else field j v (delete_field k fs)

-- `value[n]`, with nothing from `value.length` on.
unfoldable pub get_item : ℕ → Items → Option Value
get_item n no_items = none
get_item zero (item x xs) = some x
get_item (suc n) (item x xs) = get_item n xs

-- `next[n] = w` for an index below the length.
unfoldable pub set_item : ℕ → Value → Items → Items
set_item n w no_items = no_items
set_item zero w (item x xs) = item w xs
set_item (suc n) w (item x xs) = item x (set_item n w xs)

-- A step from a container to one of its children.
pub data Place : Type 0 where
  at_key : String → Place
  at_index : ℕ → Place

abbrev pub Location : Type 0
Location = List Place

unfoldable pub child : Place → Value → Option Value
unfolding get_field get_item
child (at_key k) (obj fs) = get_field k fs
child (at_index n) (arr xs) = get_item n xs
child _ _ = none

-- The value at a location, if the value has it.
unfoldable pub look : Location → Value → Option Value
unfolding child
look [] v = some v
look (p ∷ l) v = elim (child p v) [ none ↦ none | some c ↦ look l c ]
