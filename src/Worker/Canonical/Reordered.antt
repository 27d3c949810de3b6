-- ===== src/Worker/Canonical/Reordered.antt =====
-- The text and the hash of a report do not depend on the order of the fields of its objects.
use riskrail.Base.{◌≡◌, refl, ap, ◌∙◌, ◌≢◌, String, map, Dict, arith}
use riskrail.Base.Text.{join, join_with}
use riskrail.Base.Sort.{Order, IsTotal, sort_entries, insert_entry_comm}
use riskrail.Value.{Value, Items, Fields}
use riskrail.Value.Same.{
  IsSame, same, same_array, same_object, AreSame, no_items, items, HasSame, no_fields, fields,
  swapped, then_same, is_undefined, is_undefined-IsSame,
}
use riskrail.Worker.Canonical.{
  member_text, object_text, member_entry, canonical_json, canonical_items, canonical_fields,
  sha256_canonical,
}

module _ (le : Order) (stringify : Value → String) (o : IsTotal le) where
  -- two neighbours are sorted alike in either order
  sort-swapped :
      (j k : String) (v w : Value) (a b : String) (rest : Dict String)
      → j ≢ k
      → sort_entries le (member_entry j v a (member_entry k w b rest))
        ≡ sort_entries le (member_entry k w b (member_entry j v a rest))
  unfolding sort_entries member_entry
  sort-swapped j k v w a b rest apart =
      ground (arith, insert_entry_comm le o j k a b (sort_entries le rest) apart)

  sort-member_entry :
      (k : String) (v w : Value) (a b : String) (rest others : Dict String)
      → is_undefined v ≡ is_undefined w
      → a ≡ b
      → sort_entries le rest ≡ sort_entries le others
      → sort_entries le (member_entry k v a rest) ≡ sort_entries le (member_entry k w b others)
  unfolding sort_entries member_entry
  sort-member_entry k v w a b rest others u e h = ground (arith, u, e, h)

  mutual
    unfolding canonical_json object_text

    text_same :
        {v w : Value} → IsSame v w → canonical_json le stringify v ≡ canonical_json le stringify w
    text_same (same v) = refl
    text_same (same_array xs ys h) =
        ap (λ ts. join "[" (join (join_with "," ts) "]")) (texts_same h)
    text_same (same_object fs gs h) =
        ap (λ es. join "{" (join (join_with "," (map (member_text le stringify) es)) "}"))
          (entries_same h)

    texts_same :
        {xs ys : Items}
        → AreSame xs ys
        → canonical_items le stringify xs ≡ canonical_items le stringify ys
    texts_same no_items = refl
    texts_same (items v w xs ys h hs) = cc (text_same h, texts_same hs)

    entries_same :
        {fs gs : Fields}
        → HasSame fs gs
        → sort_entries le (canonical_fields le stringify fs)
          ≡ sort_entries le (canonical_fields le stringify gs)
    entries_same no_fields = refl
    entries_same (fields k v w fs gs h hs) =
        sort-member_entry k v w _ _ _ _ (is_undefined-IsSame h) (text_same h) (entries_same hs)
    entries_same (swapped j k v w fs apart) = sort-swapped j k v w _ _ _ apart
    entries_same (then_same fs gs hs h k) = entries_same h ∙ entries_same k

  -- Reports that differ in the order of fields only, at any depth, have the same hash.
  pub sha256_canonical-IsSame :
      (hash : String → String) {v w : Value}
      → IsSame v w
      → sha256_canonical le stringify hash v ≡ sha256_canonical le stringify hash w
  unfolding sha256_canonical
  sha256_canonical-IsSame hash h = ap hash (text_same h)
