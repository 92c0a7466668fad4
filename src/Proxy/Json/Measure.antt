-- ===== src/Proxy/Json/Measure.antt =====
-- The size, height and keys of a value, and how a deserializer presents it.
use weregopher.Base.{bytes_key, ℕ, suc, ◌+◌, max, Bool, true, false, ◌&&◌, ◌||◌, not, bytes_eq}
use weregopher.Proxy.Text.{Text}
use weregopher.Proxy.Json.{
  Raw, raw_null, raw_bool, raw_unsigned, raw_negative, raw_float, raw_text, raw_array, raw_object,
  RawItems, raw_items_end, raw_item, RawMembers, raw_members_end, raw_member, Json, null, boolean,
  unsigned_number, negative_number, float_number, string, array, object, Items, no_items, item,
  Members, no_members, member,
}

unfoldable mutual
  pub count : Json → ℕ
  count (array items) = suc (count_items items)
  count (object members) = suc (count_members members)
  count _ = 1

  pub count_items : Items → ℕ
  count_items no_items = 0
  count_items (item v vs) = count v + count_items vs

  pub count_members : Members → ℕ
  count_members no_members = 0
  count_members (member k v vs) = count v + count_members vs

unfoldable mutual
  pub height : Json → ℕ
  height (array items) = suc (height_items items)
  height (object members) = suc (height_members members)
  height _ = 1

  pub height_items : Items → ℕ
  height_items no_items = 0
  height_items (item v vs) = max (height v) (height_items vs)

  pub height_members : Members → ℕ
  height_members no_members = 0
  height_members (member k v vs) = max (height v) (height_members vs)

unfoldable pub has_key : Text → Members → Bool
has_key k no_members = false
has_key k (member j v vs) = bytes_eq j k || has_key k vs

-- No object in a value has a key twice.
unfoldable mutual
  pub distinct_keys : Json → Bool
  distinct_keys (array items) = distinct_keys_items items
  distinct_keys (object members) = distinct_keys_members members
  distinct_keys _ = true

  pub distinct_keys_items : Items → Bool
  distinct_keys_items no_items = true
  distinct_keys_items (item v vs) = distinct_keys v && distinct_keys_items vs

  pub distinct_keys_members : Members → Bool
  distinct_keys_members no_members = true
  distinct_keys_members (member k v vs) =
      not (has_key k vs) && distinct_keys v && distinct_keys_members vs

-- The presentation of a value by a deserializer that finds no error.
unfoldable mutual
  pub present : Json → Raw
  present null = raw_null
  present (boolean b) = raw_bool b
  present (unsigned_number n) = raw_unsigned n
  present (negative_number n) = raw_negative n
  present float_number = raw_float true
  present (string s) = raw_text s
  present (array items) = raw_array (present_items items)
  present (object members) = raw_object (present_members members)

  pub present_items : Items → RawItems
  present_items no_items = raw_items_end
  present_items (item v vs) = raw_item (present v) (present_items vs)

  pub present_members : Members → RawMembers
  present_members no_members = raw_members_end
  present_members (member k v vs) = raw_member k (present v) (present_members vs)
