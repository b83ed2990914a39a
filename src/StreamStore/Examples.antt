-- ===== src/StreamStore/Examples.antt =====
-- A stream that starts and takes a text with an emoji.
use auto_reign.Prelude.{
  ◌≡◌, refl, Option, some, [], Text, codes, ok, pos, is_blank, is_space, is_surrogate,
}
use auto_reign.Prelude.Dict
use auto_reign.TextOffsets.{utf16_code_units, advance_utf16_offset, encode_utf16_le}
use auto_reign.Json.{Value, object, end}
use auto_reign.ChatBlocks.{is_valid_chat_block_id}
use auto_reign.StreamStore.State.{
  Now, Store, new_store, positive_id, check_generation_id, check_block_id, check_offset, check_text,
  remove_expired, cleanup_expired, live_state, active_state, owned_state, write_state, touch,
}
use auto_reign.StreamStore.Operations.{start, append_content, append_text}
use auto_reign.StreamStore.Sound.{IsSound}
use auto_reign.StreamStore.Reachable.{made, started, appended, Reachable-IsSound}

abbrev loads : Text → Option Value
loads written = some (object end)

abbrev now : Now
now = record {
  moment = record {
    year = 2025;
    month = 2;
    day = 28;
    hour = 12;
    minute = 0;
    second = 0;
    microsecond = 5;
  };
  instant = 5;
}

abbrev empty_store : Store
empty_store = record { ttl = 60000000; active_by_task = []; states = [] }

store-made : new_store (pos 60) ≡ ok empty_store
unfolding new_store
store-made = refl

abbrev begun : Store
begun = (start (codes "g1") now (pos 1) (pos 2) empty_store).1

abbrev extended : Store
extended = (append_text now (pos 2) (codes "g1") (codes "b1") (pos 0) (codes "a😀") begun).1

units_appended :
    (append_text now (pos 2) (codes "g1") (codes "b1") (pos 0) (codes "a😀") begun).0 ≡ ok 3
unfolding append_text append_content start cleanup_expired remove_expired positive_id
    check_generation_id check_block_id check_offset check_text owned_state active_state live_state
    write_state touch utf16_code_units advance_utf16_offset encode_utf16_le is_valid_chat_block_id
    is_blank is_space is_surrogate Dict.get Dict.put
units_appended = refl

Reachable-IsSound_example : IsSound extended
Reachable-IsSound_example = Reachable-IsSound loads extended (
    appended begun now (pos 2) (codes "g1") (codes "b1") (pos 0) (codes "a😀")
      (started empty_store (codes "g1") now (pos 1) (pos 2) (made (pos 60) empty_store store-made)))
