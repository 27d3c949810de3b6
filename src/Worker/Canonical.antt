-- ===== src/Worker/Canonical.antt =====
-- `canonicalJson` and `sha256Canonical` of apps/worker/src/main.ts. The order of keys is that of
-- `sort`, an argument, and so is `JSON.stringify` on values that hold no others. A bigint, which it
-- refuses, does not stand in a report that was parsed from JSON.
pub mod Reordered
mod Tests
use riskrail.Base.{String, List, [], ◌∷◌, map, Dict, if◌then◌else◌}
use riskrail.Base.Text.{join, join_with}
use riskrail.Base.Sort.{Order, sort_entries}
use riskrail.Value.{
  Value, undefined, null, bool, number, bigint, str, array, object, Items, nil, cons, Fields, end,
  field,
}
use riskrail.Value.Same.{is_undefined}

-- the key of a field with its text, unless its value is undefined
unfoldable pub member_entry : String → Value → String → Dict String → Dict String
member_entry key v text rest = if is_undefined v then rest else (key, text) ∷ rest

module _ (le : Order) (stringify : Value → String) where
  -- `${JSON.stringify(key)}:${…}`
  unfoldable pub member_text : String × String → String
  member_text (key, text) = join (stringify (str key)) (join ":" text)

  unfoldable pub object_text : Dict String → String
  unfolding sort_entries member_text join_with
  object_text entries =
      join "{" (join (join_with "," (map member_text (sort_entries le entries))) "}")

  unfoldable mutual
    unfolding object_text member_entry join_with

    pub canonical_json : Value → String
    canonical_json undefined = "null"
    canonical_json (array xs) = join "[" (join (join_with "," (canonical_items xs)) "]")
    canonical_json (object fs) = object_text (canonical_fields fs)
    canonical_json null = stringify null
    canonical_json (bool b) = stringify (bool b)
    canonical_json (number n) = stringify (number n)
    canonical_json (bigint n) = stringify (bigint n)
    canonical_json (str s) = stringify (str s)

    pub canonical_items : Items → List String
    canonical_items nil = []
    canonical_items (cons x xs) = canonical_json x ∷ canonical_items xs

    pub canonical_fields : Fields → Dict String
    canonical_fields end = []
    canonical_fields (field k v fs) = member_entry k v (canonical_json v) (canonical_fields fs)

  unfoldable pub sha256_canonical : (String → String) → Value → String
  unfolding canonical_json
  sha256_canonical hash value = hash (canonical_json value)
