-- ===== src/Json/Canonical.antt =====
-- `canonical_json` and `validate_json_value`.
use auto_reign.Prelude.{suc, ◌>>◌, Result, ok, err, none, some, Text, ltb, [], ◌∷◌, if◌then◌else◌}
use auto_reign.Json.Values.{Value}
use auto_reign.Json.Scan.{
  JsonSafetyError, json_serialization_failed, json_size_limit, max_json_node_count,
  max_json_canonical_bytes, utf8_size, scan,
}
use auto_reign.Json.Dumps.{dumps}

-- The size test behind `json.dumps`.
unfoldable pub sized : Text → Result JsonSafetyError Text
sized text = elim (utf8_size text) [
  | none ↦ err json_serialization_failed
  | some size ↦ if ltb max_json_canonical_bytes size then err json_size_limit else ok text
]

unfoldable pub serialize : Value → Result JsonSafetyError Text
unfolding sized
serialize value = elim (dumps value) [
  | none ↦ err json_serialization_failed
  | some text ↦ sized text
]

unfoldable pub canonical_json : Value → Result JsonSafetyError Text
unfolding serialize
canonical_json value = do scan (suc max_json_node_count) ((value, 0) ∷ []) (0, 0); serialize value

unfoldable pub validate_json_value : Value → Result JsonSafetyError (Unit {0})
validate_json_value value = do canonical_json value; ok tt
