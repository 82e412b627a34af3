-- ===== src/Async.antt =====
-- pkg/async and pkg/headers: the messages, the sentinel errors and the header names that the two
-- transports share. A JSON body (`[]byte`, `json.RawMessage`) is a text, "" where it is empty or nil.
pub mod Headers
pub mod JsonValue
pub mod Wire
use reactive_commons_go.Base.{String, Option}
use reactive_commons_go.Async.JsonValue.{Json}

module _ (T : Type 0) where
  pub record DomainEvent : Type 0 where
    pub name : String
    pub event_id : String
    pub payload : T

  pub record Command : Type 0 where
    pub name : String
    pub command_id : String
    pub payload : T

  pub record AsyncQuery : Type 0 where
    pub resource : String
    pub query_data : T

  pub record Notification : Type 0 where
    pub name : String
    pub event_id : String
    pub payload : T

pub record From : Type 0 where
  pub correlation_id : String
  pub reply_id : String

pub record RawEnvelope : Type 0 where
  pub name : String
  pub event_id : String
  pub command_id : String
  pub resource : String
  pub payload : Option Json
  pub query_data : Option Json

-- The sentinels of pkg/async/errors.go; the texts are the names that `%w` wraps them with.
pub data Error : Type 0 where
  duplicate_handler : String → Error
  wildcard_not_supported : String → Error
  registration_closed : Error

pub data Result (A : Type 0) : Type 0 where
  ok : A → Result A
  err : Error → Result A
