-- ===== src/Json.antt =====
-- The JSON values that the code stores and hashes, and `json.dumps` with sorted keys.
pub mod Dumps
pub mod Quoted
pub mod Injective
mod Tests
use xieyi.Prelude.{ℕ, String, Bool, Text}

-- Members stand in the order of the dictionary. Floating-point numbers are left out.
mutual
  pub data Json : Type 0 where
    null : Json
    boolean : Bool → Json
    number : ℕ → Json
    negative : ℕ → Json
    string : Text → Json
    array : Items → Json
    object : Members → Json

  pub data Items : Type 0 where
    nil : Items
    cons : Json → Items → Items

  pub data Members : Type 0 where
    empty : Members
    member : String → Json → Members → Members
