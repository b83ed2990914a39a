-- ===== src/Json/Scan.antt =====
-- The loop of `canonical_json`: the nodes of a value are counted and bounded before it is written.
use auto_reign.Prelude.{
  ℕ, zero, suc, ◌+◌, ◌*◌, ◌/◌, ◌%◌, Option, none, some, List, [], ◌∷◌, ◌++◌, Text, Result, ok, err,
  ◌>>=◌, ◌>>◌, guard, ltb, ℤ, pos, negsuc, if◌then◌else◌, length, is_surrogate,
}
use auto_reign.Json.Values.{
  Value, Items, Fields, null, bool, int, float, str, array, object, other, nil, cons, end, field,
}

pub data JsonSafetyError : Type 0 where
  json_node_limit json_size_limit json_invalid_number json_invalid_type : JsonSafetyError
  json_depth_limit json_invalid_key json_string_limit json_invalid_string : JsonSafetyError
  json_serialization_failed : JsonSafetyError

abbrev pub max_json_nesting_depth : ℕ
max_json_nesting_depth = 64

abbrev pub max_json_node_count : ℕ
max_json_node_count = 50000

abbrev pub max_json_string_chars : ℕ
max_json_string_chars = 1000000

abbrev pub max_json_canonical_bytes : ℕ
max_json_canonical_bytes = 4 * 1024 * 1024

-- The most digits that `str` writes of an `int`, by Python's default.
abbrev pub max_str_digits : ℕ
max_str_digits = 4300

-- The bytes of one code point in UTF-8.
abbrev pub utf8_bytes : ℕ → ℕ
utf8_bytes c = if ltb c 0x80 then 1 else if ltb c 0x800 then 2 else if ltb c 0x10000 then 3 else 4

-- len(value.encode("utf-8", errors="strict")); `none` is a UnicodeError.
unfoldable pub utf8_size : Text → Option ℕ
unfolding is_surrogate
utf8_size [] = some 0
utf8_size (c ∷ s) =
    let rest = utf8_size s in
    if is_surrogate c then none else elim rest [ none ↦ none | some n ↦ some (utf8_bytes c + n) ]

unfoldable pub string_bytes : Text → Result JsonSafetyError ℕ
string_bytes value =
    if ltb max_json_string_chars (length value)
    then err json_string_limit
    else elim (utf8_size value) [ none ↦ err json_invalid_string | some n ↦ ok n ]

-- The decimal digits of a number, before `rest`; the first argument is fuel, and a number has
-- fewer digits than its successor.
unfoldable pub digits_before : ℕ → ℕ → Text → Text
digits_before zero n rest = rest
digits_before (suc fuel) n rest =
    let more = digits_before fuel (n / 10) ((48 + n % 10) ∷ rest) in
    if ltb n 10 then (48 + n) ∷ rest else more

-- str(current)
unfoldable pub decimal : ℤ → Text
unfolding digits_before
decimal (pos n) = digits_before (suc n) n []
decimal (negsuc n) = 45 ∷ digits_before (suc (suc n)) (suc n) []

unfoldable pub int_chars : ℤ → Result JsonSafetyError ℕ
int_chars n =
    let size = length (decimal n) in
    let sign : ℕ = elim n [ pos _ ↦ 0 | negsuc _ ↦ 1 ] in
    if ltb (max_str_digits + sign) size then err json_invalid_number else ok size

-- raw_string_bytes += n
unfoldable pub add_bytes : ℕ → ℕ → Result JsonSafetyError ℕ
add_bytes bytes n =
    if ltb max_json_canonical_bytes (bytes + n) then err json_size_limit else ok (bytes + n)

-- node_count += 1
unfoldable pub add_node : ℕ → Result JsonSafetyError ℕ
add_node count = if ltb max_json_node_count (count + 1) then err json_node_limit else ok (count + 1)

-- The counters of the loop: `node_count` and `raw_string_bytes`.
abbrev pub Counters : Type 0
Counters = ℕ × ℕ

unfoldable pub key_bytes : Option Text → Result JsonSafetyError ℕ
key_bytes none = err json_invalid_key
key_bytes (some key) = string_bytes key

-- `for key in current`
unfoldable pub count_keys : Fields → Counters → Result JsonSafetyError Counters
unfolding add_node add_bytes key_bytes
count_keys end counters = ok counters
count_keys (field key value fields) (count, bytes) = do
  count ← add_node count
  n ← key_bytes key
  bytes ← add_bytes bytes n
  count_keys fields (count, bytes)

-- What a round puts on the stack, the first child on top.
abbrev pub push_items : Items → ℕ → List (Value × ℕ)
push_items nil depth = []
push_items (cons v vs) depth = (v, depth) ∷ push_items vs depth

abbrev pub push_values : Fields → ℕ → List (Value × ℕ)
push_values end depth = []
push_values (field k v fields) depth = (v, depth) ∷ push_values fields depth

-- The body of the loop behind its count, for one value: the counters and the children.
unfoldable pub visit : Value → ℕ → Counters → Result JsonSafetyError (Counters × List (Value × ℕ))
unfolding add_bytes int_chars
visit null depth (count, bytes) = ok ((count, bytes), [])
visit (bool _) depth (count, bytes) = ok ((count, bytes), [])
visit (str s) depth (count, bytes) = do
  n ← string_bytes s
  bytes ← add_bytes bytes n
  ok ((count, bytes), [])
visit (int i) depth (count, bytes) = do
  n ← int_chars i
  bytes ← add_bytes bytes n
  ok ((count, bytes), [])
visit (float none) depth counters = err json_invalid_number
visit (float (some _)) depth counters = ok (counters, [])
visit other depth counters = err json_invalid_type
visit (array items) depth counters = do
  guard (ltb depth max_json_nesting_depth) json_depth_limit
  ok (counters, push_items items (depth + 1))
visit (object fields) depth counters = do
  guard (ltb depth max_json_nesting_depth) json_depth_limit
  counters ← count_keys fields counters
  ok (counters, push_values fields (depth + 1))

-- One round: `node_count` is counted and tested before the value is looked at.
unfoldable pub round : Value → ℕ → Counters → Result JsonSafetyError (Counters × List (Value × ℕ))
unfolding visit count_keys
round value depth (count, bytes) = do count ← add_node count; visit value depth (count, bytes)

-- `while stack`. A round counts a node, so the limit on nodes ends the loop before the fuel does.
unfoldable pub scan : ℕ → List (Value × ℕ) → Counters → Result JsonSafetyError (Unit {0})
scan fuel [] counters = ok tt
scan zero (_ ∷ _) counters = err json_node_limit
scan (suc fuel) ((value, depth) ∷ stack) counters = do
  (counters, children) ← round value depth counters
  scan fuel (children ++ stack) counters
