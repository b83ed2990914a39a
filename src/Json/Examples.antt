-- ===== src/Json/Examples.antt =====
-- A nested value, and its canonical text.
use auto_reign.Prelude.{◌≡◌, refl, true, codes, ok, ◌>>=◌, some, negsuc}
use auto_reign.Json.{
  Value, bool, int, str, array, object, nil, cons, end, field, canonical_json, serialize, sized,
  scan, round, visit, count_keys, key_bytes, string_bytes, utf8_size, add_node, add_bytes, dumps,
  dump_items, dump_fields, decimal, digits_before, int_chars,
}
use auto_reign.Json.Walk.{walk, canonical_json-walk}

abbrev nested : Value
nested = object (
    field (some (codes "b")) (array (cons (int (negsuc 11)) (cons (bool true) nil)))
      (field (some (codes "a")) (str (codes "\"é")) end))

text_of_nested : canonical_json nested ≡ ok (codes "{\"a\":\"\\\"é\",\"b\":[-12,true]}")
unfolding canonical_json serialize sized scan round visit count_keys key_bytes string_bytes
    utf8_size add_node add_bytes dumps dump_items dump_fields decimal digits_before int_chars
text_of_nested = refl

canonical_json-walk_example :
    canonical_json nested ≡ (walk nested 0 (0, 0) >>= λ _. serialize nested)
canonical_json-walk_example = canonical_json-walk nested
