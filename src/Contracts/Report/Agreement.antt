-- ===== src/Contracts/Report/Agreement.antt =====
-- The hash of a report in this package is the hash that the worker stores.
use riskrail.Base.{◌≡◌, refl, ap, sym, ◌∙◌, not, String, [], ◌∷◌, map, Dict, arith}
use riskrail.Base.Text.{join, join_with}
use riskrail.Base.Sort.{Order, IsTotal, sort_entries}
use riskrail.Base.Sort.Selected.{select, select-sort_entries}
use riskrail.Value.{
  Value, undefined, null, bool, number, bigint, str, array, object, Items, nil, cons, Fields, end,
  field,
}
use riskrail.Value.Same.{is_undefined}
use riskrail.Worker.Canonical.{
  member_text, object_text, member_entry, canonical_json, canonical_items, canonical_fields,
}
use riskrail.Contracts.Report.{
  from_entries, json_text, json_items, json_members, stable, stable_items, stable_entries,
}

module _ (le : Order) (stringify : Value → String) (o : IsTotal le) where
  abbrev texts : Dict Value → Dict String
  texts entries = select (λ v. not (is_undefined v)) (json_text stringify) entries

  is_undefined-stable : (v : Value) → is_undefined (stable le v) ≡ is_undefined v
  unfolding stable
  is_undefined-stable undefined = refl
  is_undefined-stable (array xs) = refl
  is_undefined-stable (object fs) = refl
  is_undefined-stable null = refl
  is_undefined-stable (bool b) = refl
  is_undefined-stable (number n) = refl
  is_undefined-stable (bigint n) = refl
  is_undefined-stable (str s) = refl

  members-from_entries :
      (entries : Dict Value)
      → json_members stringify (from_entries entries)
        ≡ map (member_text le stringify) (texts entries)
  unfolding json_members from_entries select member_text
  members-from_entries [] = refl
  members-from_entries ((k, v) ∷ rest) = ground (arith, members-from_entries rest)

  mutual
    unfolding canonical_json json_text stable object_text member_entry select

    text_agrees : (v : Value) → canonical_json le stringify v ≡ json_text stringify (stable le v)
    text_agrees undefined = refl
    text_agrees null = refl
    text_agrees (bool b) = refl
    text_agrees (number n) = refl
    text_agrees (bigint n) = refl
    text_agrees (str s) = refl
    text_agrees (array xs) = ap (λ ts. join "[" (join (join_with "," ts) "]")) (items_agree xs)
    text_agrees (object fs) =
        ap (λ ts. join "{" (join (join_with "," ts) "}"))
          (ap (λ es. map (member_text le stringify) (sort_entries le es)) (entries_agree fs)
            ∙ (ap (map (member_text le stringify)) (
                  sym (
                    select-sort_entries le o (λ v. not (is_undefined v)) (json_text stringify)
                      (stable_entries le fs)))
                ∙ sym (members-from_entries (sort_entries le (stable_entries le fs)))))

    items_agree :
        (xs : Items) → canonical_items le stringify xs ≡ json_items stringify (stable_items le xs)
    items_agree nil = refl
    items_agree (cons x xs) = cc (text_agrees x, items_agree xs)

    entries_agree : (fs : Fields) → canonical_fields le stringify fs ≡ texts (stable_entries le fs)
    entries_agree end = refl
    entries_agree (field k v fs) =
        ground (arith, text_agrees v, entries_agree fs, is_undefined-stable v)
