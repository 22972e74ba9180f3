-- ===== src/Protocol/Json.antt =====
-- JSON as crates/slink-protocol/src/payload.rs reads it: what serde_json's reader hands a visitor
-- (`Raw`: an object's entries as they are written, repeats included) and the `Value` that is kept.
use session_link.Common.{ℕ, Bool, Text}

-- serde_json's `Number`: a `u64`, a negative `i64` by its magnitude, or a float by its bits.
pub data Number : Type 0 where
  unsigned : ℕ → Number
  negative : ℕ → Number
  float : ℕ → Number

mutual
  pub data Raw : Type 0 where
    null : Raw
    bool : Bool → Raw
    number : Number → Raw
    string : Text → Raw
    array : RawItems → Raw
    object : RawFields → Raw

  pub data RawItems : Type 0 where
    nil : RawItems
    cons : Raw → RawItems → RawItems

  pub data RawFields : Type 0 where
    end : RawFields
    field : Text → Raw → RawFields → RawFields

mutual
  pub data Value : Type 0 where
    null : Value
    bool : Bool → Value
    number : Number → Value
    string : Text → Value
    array : Items → Value
    object : Fields → Value

  pub data Items : Type 0 where
    nil : Items
    cons : Value → Items → Items

  pub data Fields : Type 0 where
    end : Fields
    field : Text → Value → Fields → Fields
