-- ===== src/Pii/Json/Lookup.antt =====
-- Looking up a child of a value after another was set or deleted.
use lupid_sdk.Prelude.{
  ℕ, zero, suc, String, false, none, some, ◌==◌, ◌≡◌, refl, arith, eqb, if◌then◌else◌, eq_iff,
}
use lupid_sdk.Pii.Json.{
  Value, Items, Fields, no_items, item, no_fields, field, get_field, set_field, delete_field,
  get_item, set_item,
}

pub get-set_field :
    (k j : String) (w : Value) (fs : Fields)
    → get_field j (set_field k w fs) ≡ (if k == j then some w else get_field j fs)
unfolding get_field set_field
get-set_field k j w no_fields = refl
get-set_field k j w (field i v fs) =
    ground (arith, eq_iff k j, eq_iff i k, eq_iff i j, get-set_field k j w fs)

pub get-delete_field :
    (k j : String) (fs : Fields)
    → get_field j (delete_field k fs) ≡ (if k == j then none else get_field j fs)
unfolding get_field delete_field
get-delete_field k j no_fields = ground arith
get-delete_field k j (field i v fs) =
    ground (arith, eq_iff k j, eq_iff i k, eq_iff i j, get-delete_field k j fs)

pub get-set_item_other :
    (n m : ℕ) (w : Value) (xs : Items)
    → eqb n m ≡ false
    → get_item m (set_item n w xs) ≡ get_item m xs
unfolding get_item set_item
get-set_item_other n m w no_items e = ground arith
get-set_item_other zero zero w (item x xs) e = ground arith
get-set_item_other zero (suc m) w (item x xs) e = refl
get-set_item_other (suc n) zero w (item x xs) e = refl
get-set_item_other (suc n) (suc m) w (item x xs) e = get-set_item_other n m w xs (ground arith)

pub get-set_item_same :
    (n : ℕ) (w c : Value) (xs : Items)
    → get_item n xs ≡ some c
    → get_item n (set_item n w xs) ≡ some w
unfolding get_item set_item
get-set_item_same n w c no_items e = absurd (ground arith)
get-set_item_same zero w c (item x xs) e = refl
get-set_item_same (suc n) w c (item x xs) e = get-set_item_same n w c xs e
