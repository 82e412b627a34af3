-- ===== src/Async/JsonValue.antt =====
-- JSON as `encoding/json` reads and writes it, as far as the code uses it: a value, and the decoding
-- of an envelope. A text that is not JSON has no value; a `json.RawMessage` is the value it holds.
use reactive_commons_go.Base.{String, Bool}

mutual
  pub data Json : Type 0 where
    null : Json
    boolean : Bool → Json
    number : String → Json
    text : String → Json
    array : Elements → Json
    object : Members → Json

  pub data Elements : Type 0 where
    no_elements : Elements
    element : Json → Elements → Elements

  pub data Members : Type 0 where
    no_members : Members
    member : String → Json → Members → Members
