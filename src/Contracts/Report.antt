-- ===== src/Contracts/Report.antt =====
-- `stable`, `canonicalizeRiskReport` and `hashRiskReport` of packages/rivisk-contracts/src/index.ts.
-- The order of `localeCompare` is an argument, and so is `JSON.stringify` on values that hold no
-- others. The keys of an object differ and are names, which an object keeps in their order; so
-- sorting its entries before their values are changed or afterwards is the same.
pub mod Agreement
mod Tests
use riskrail.Base.{String, List, [], ◌∷◌, Dict, if◌then◌else◌}
use riskrail.Base.Text.{join, join_with}
use riskrail.Base.Sort.{Order, sort_entries}
use riskrail.Value.{
  Value, undefined, null, bool, number, bigint, str, array, object, Items, nil, cons, Fields, end,
  field,
}
use riskrail.Value.Same.{is_undefined}

-- `Object.fromEntries`
unfoldable pub from_entries : Dict Value → Fields
from_entries [] = end
from_entries ((k, v) ∷ rest) = field k v (from_entries rest)

-- a member of an object's text, unless its value is undefined
abbrev pub with_member : String → Value → String → List String → List String
with_member key v text rest = if is_undefined v then rest else join key (join ":" text) ∷ rest

module _ (stringify : Value → String) where
  -- `JSON.stringify`; of undefined alone it gives no text, and a report is an object
  unfoldable mutual
    unfolding join_with

    pub json_text : Value → String
    json_text undefined = "null"
    json_text (array xs) = join "[" (join (join_with "," (json_items xs)) "]")
    json_text (object fs) = join "{" (join (join_with "," (json_members fs)) "}")
    json_text null = stringify null
    json_text (bool b) = stringify (bool b)
    json_text (number n) = stringify (number n)
    json_text (bigint n) = stringify (bigint n)
    json_text (str s) = stringify (str s)

    pub json_items : Items → List String
    json_items nil = []
    json_items (cons x xs) = json_text x ∷ json_items xs

    pub json_members : Fields → List String
    json_members end = []
    json_members (field k v fs) = with_member (stringify (str k)) v (json_text v) (json_members fs)

module _ (le : Order) where
  unfoldable mutual
    unfolding from_entries sort_entries

    pub stable : Value → Value
    stable (array xs) = array (stable_items xs)
    stable (object fs) = object (from_entries (sort_entries le (stable_entries fs)))
    stable undefined = undefined
    stable null = null
    stable (bool b) = bool b
    stable (number n) = number n
    stable (bigint n) = bigint n
    stable (str s) = str s

    pub stable_items : Items → Items
    stable_items nil = nil
    stable_items (cons x xs) = cons (stable x) (stable_items xs)

    pub stable_entries : Fields → Dict Value
    stable_entries end = []
    stable_entries (field k v fs) = (k, stable v) ∷ stable_entries fs

  unfoldable pub canonicalize_risk_report : (stringify : Value → String) → Value → String
  unfolding json_text stable
  canonicalize_risk_report stringify report = json_text stringify (stable report)

  unfoldable pub hash_risk_report :
      (stringify : Value → String) → (String → String) → Value → String
  unfolding canonicalize_risk_report
  hash_risk_report stringify hash report = hash (canonicalize_risk_report stringify report)
