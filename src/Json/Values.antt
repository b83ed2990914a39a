-- ===== src/Json/Values.antt =====
-- The values of the dynamic language, as far as they can reach persistence.
use auto_reign.Prelude.{
  Bool, ℤ, Option, none, some, Text, if◌then◌else◌, ◌==◌, text_key, List, [], ◌∷◌,
}

-- A float is held by its decimal text; one that is not finite has none. `other` is a value of any
-- further type. Values are trees: what the source says of one that contains itself has no
-- counterpart.
mutual
  pub data Value : Type 0 where
    null : Value
    bool : Bool → Value
    int : ℤ → Value
    float : Option Text → Value
    str : Text → Value
    array : Items → Value
    object : Fields → Value
    other : Value

  -- A dict in insertion order. A key that is no `str` is `none`.
  pub data Fields : Type 0 where
    end : Fields
    field : Option Text → Value → Fields → Fields

  -- The members of a list.
  pub data Items : Type 0 where
    cons : Value → Items → Items
    nil : Items

-- d.get(k)
abbrev pub get_field : Text → Fields → Option Value
get_field k end = none
get_field k (field none v d) = get_field k d
get_field k (field (some j) v d) = if k == j then some v else get_field k d

-- The values of a list, and back.
abbrev pub items_of : List Value → Items
items_of [] = nil
items_of (v ∷ vs) = cons v (items_of vs)

abbrev pub values_of : Items → List Value
values_of nil = []
values_of (cons v vs) = v ∷ values_of vs
