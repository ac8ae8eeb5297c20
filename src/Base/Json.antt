-- ===== src/Base/Json.antt =====
-- A value of which the source knows no type: what JSON and JavaScript make of a request's body.
use Prim.Native.Nat.{ℕ}
use Prim.Native.String.{String}
use mathlib.Core.Bool.{Bool}

mutual
  -- The members of an object, by name.
  pub data Fields : Type 0 where
    field : String → Value → Fields → Fields
    end : Fields

  pub data Items : Type 0 where
    item : Value → Items → Items
    no_more : Items

  pub data Value : Type 0 where
    object : Fields → Value
    array : Items → Value
    text : String → Value
    number : ℕ → Value
    bool : Bool → Value
    null undefined : Value
