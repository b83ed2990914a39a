-- ===== src/Json/Dumps.antt =====
-- `json.dumps` with `ensure_ascii=False`, `allow_nan=False`, `sort_keys=True` and no spaces.
use auto_reign.Prelude.{
  ℕ, ◌+◌, ◌/◌, ◌%◌, Bool, true, false, ◌||◌, ◌&&◌, Option, none, some, List, [], ◌∷◌, ◌++◌, Text,
  codes, ltb, nat_beq, if◌then◌else◌,
}
use auto_reign.Json.Values.{
  Value, Items, Fields, null, bool, int, float, str, array, object, other, nil, cons, end, field,
}
use auto_reign.Json.Scan.{decimal}

hex_digit : ℕ → ℕ
hex_digit n = if ltb n 10 then 48 + n else 87 + n

escape_char : ℕ → Text
unfolding hex_digit
escape_char c =
    if nat_beq c 34
    then codes "\\\""
    else if nat_beq c 92
    then codes "\\\\"
    else if nat_beq c 10
    then codes "\\n"
    else if nat_beq c 13
    then codes "\\r"
    else if nat_beq c 9
    then codes "\\t"
    else if nat_beq c 12
    then codes "\\f"
    else if nat_beq c 8
    then codes "\\b"
    else if ltb c 32
    then codes "\\u00" ++ hex_digit (c / 16) ∷ hex_digit (c % 16) ∷ []
    else c ∷ []

escape : Text → Text
unfolding escape_char
escape [] = []
escape (c ∷ s) = escape_char c ++ escape s

quoted : Text → Text
unfolding escape
quoted s = codes "\"" ++ escape s ++ codes "\""

-- The order of `str`, by code points.
text_le : Text → Text → Bool
text_le [] t = true
text_le (x ∷ s) [] = false
text_le (x ∷ s) (y ∷ t) = ltb x y || nat_beq x y && text_le s t

insert_key : Text → Text → List (Text × Text) → List (Text × Text)
unfolding text_le
insert_key k v [] = (k, v) ∷ []
insert_key k v ((j, w) ∷ rest) =
    let later = insert_key k v rest in
    if text_le k j then (k, v) ∷ (j, w) ∷ rest else (j, w) ∷ later

-- The members of an object in the order of their keys, each key with its value's text.
join_members : List (Text × Text) → Text
unfolding quoted
join_members [] = []
join_members ((k, v) ∷ []) = quoted k ++ codes ":" ++ v
join_members ((k, v) ∷ m ∷ rest) =
    quoted k ++ codes ":" ++ v ++ codes "," ++ join_members (m ∷ rest)

join_texts : List Text → Text
join_texts [] = []
join_texts (t ∷ []) = t
join_texts (t ∷ u ∷ rest) = t ++ codes "," ++ join_texts (u ∷ rest)

both : Option Text → Option (List Text) → Option (List Text)
both (some t) (some ts) = some (t ∷ ts)
both _ _ = none

with_key : Text → Option Text → Option (List (Text × Text)) → Option (List (Text × Text))
unfolding insert_key
with_key k (some v) (some members) = some (insert_key k v members)
with_key k _ _ = none

-- `none` is a ValueError or a TypeError.
unfoldable mutual
  unfolding quoted join_members join_texts decimal both with_key

  pub dumps : Value → Option Text
  dumps null = some (codes "null")
  dumps (bool b) = some (if b then codes "true" else codes "false")
  dumps (int i) = some (decimal i)
  dumps (float repr) = repr
  dumps (str s) = some (quoted s)
  dumps (array items) = elim (dump_items items) [
    | none ↦ none
    | some texts ↦ some (codes "[" ++ join_texts texts ++ codes "]")
  ]
  dumps (object fields) = elim (dump_fields fields) [
    | none ↦ none
    | some members ↦ some (codes "{" ++ join_members members ++ codes "}")
  ]
  dumps other = none

  pub dump_items : Items → Option (List Text)
  dump_items nil = some []
  dump_items (cons v vs) = both (dumps v) (dump_items vs)

  pub dump_fields : Fields → Option (List (Text × Text))
  dump_fields end = some []
  dump_fields (field none v fields) = none
  dump_fields (field (some k) v fields) = with_key k (dumps v) (dump_fields fields)
