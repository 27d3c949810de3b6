-- ===== src/Api/Parser/Tests.antt =====
-- Runs of the parser, where an account is a text of three letters.
use Prim.Native.String.{count}
use riskrail.Base.{◌≡◌, refl, String, none, some, List, [], ◌∷◌, true, if◌then◌else◌, ◌==◌, inl}
use riskrail.Value.{Value, str, bool, object, array, nil, cons, end, field}
use riskrail.Api.Parser.{
  ChainhookBlock, ChainhookPayload, extract_affected, extract_registry_confirmations,
}
use riskrail.Api.Parser.Mentions.{
  among, in_text, in_array, in_object, here_item, here_field, here_tx, here_block,
  extract_affected_complete,
}

abbrev accounts : String → List String
accounts s = if count s == 3 then s ∷ [] else []

abbrev nested : Value
nested = object (field "to" (array (cons (str "SP1") nil)) end)

abbrev payload : ChainhookPayload
payload = record {
  top = record { apply = none; rollback = none };
  event = some (record {
    apply = some (record { index = some 7; transactions = nested ∷ [] } ∷ []);
    rollback = none;
  });
}

extract_affected_complete_example : among "SP1" (extract_affected accounts payload).addresses ≡ true
unfolding riskrail.Api.Parser.apply_of
extract_affected_complete_example = extract_affected_complete accounts "SP1" payload (
    inl (
      here_block _ [] (
        here_tx nested [] (
          in_object _
            (here_field "to" _ end (in_array _ (here_item _ nil (in_text "SP1" refl))))))))

abbrev hash : String
hash = "0xAB00000000000000000000000000000000000000000000000000000000000000"

abbrev published : Value
published = object (
    field "transaction_identifier" (object (field "hash" (str hash) end)) (
      field "metadata" (object (field "success" (bool true) (field "result" (str "(ok u12)") end)))
        end))

reads_ok :
    extract_registry_confirmations (record {
      top = record {
        apply = some (record { index = none; transactions = published ∷ nested ∷ [] } ∷ []);
        rollback = none;
      };
      event = none;
    })
    ≡ record {
      confirmed =
          (record {
            tx_id = "ab00000000000000000000000000000000000000000000000000000000000000";
            snapshot_id = 12;
          })
          ∷ [];
      rolled_back = [];
    }
unfolding riskrail.Api.Parser.extract_registry_confirmations riskrail.Base.Text.to_lower
reads_ok = refl
