-- ===== src/Json.antt =====
-- The JSON values that lib/foxdbg_protocol.cpp builds and inspects, as trees. The library that prints
-- and parses them, extern/json, is a parameter wherever it is used.
use foxdbg.Base.{ℕ, ℤ, Bool, String, List, [], ◌∷◌}

-- `real` holds the bits of a `double`. An object lists its members in the order of the source.
mutual
  pub data Json : Type 0 where
    null : Json
    bool : Bool → Json
    int : ℤ → Json
    real : ℕ → Json
    text : String → Json
    array : Items → Json
    object : Members → Json

  pub data Items : Type 0 where
    nil : Items
    cons : Json → Items → Items

  pub data Members : Type 0 where
    end : Members
    member : String → Json → Members → Members

abbrev items : List Json → Items
items [] = nil
items (x ∷ xs) = cons x (items xs)

abbrev members : List (String × Json) → Members
members [] = end
members ((k, v) ∷ rest) = member k v (members rest)

-- `json::array()` after `push_back` of each value, and an initialiser list of pairs
abbrev pub arr : List Json → Json
arr xs = array (items xs)

abbrev pub obj : List (String × Json) → Json
obj kvs = object (members kvs)
