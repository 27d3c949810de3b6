-- ===== src/Api/Keys/Tests.antt =====
-- Runs of the life of a key, with one hash for every token.
use riskrail.Base.{◌≡◌, refl, String, Option, none, some, [], ◌∷◌}
use riskrail.Api.Keys.{ApiKey, create_key, revoke, resolve}
use riskrail.Api.Keys.Revoked.{revoke-resolve}

abbrev hash_of : String → String
hash_of token = "ab"

abbrev key : Option String → ApiKey
key revoked_at = record {
  id = "k1";
  user_id = "ann";
  name = "ci";
  prefix = "rv_test_ab";
  hash = "ab";
  last_used_at = none;
  revoked_at = revoked_at;
}

opens : resolve hash_of "rv_test_ab" (key none ∷ []) ≡ some "ann"
unfolding resolve
opens = refl

revoke-resolve_example : resolve hash_of "rv_test_ab" (key (some "noon") ∷ []) ≡ none
unfolding revoke riskrail.Api.Keys.is_match
revoke-resolve_example =
    revoke-resolve hash_of "rv_test_ab" "ann" "k1" "noon" (key none ∷ []) (key (some "noon") ∷ [])
      (refl, tt) refl
