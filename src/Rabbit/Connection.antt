-- ===== src/Rabbit/Connection.antt =====
-- internal/rabbit/connection.go: the state of a `Connection`, and the small functions on it. An AMQP
-- connection is a number; `live` says whether it is open. Times are left out of the health.
pub mod World
pub mod Guard
pub mod Accounts
pub mod Leaks
pub mod Shutdown
mod Samples
use reactive_commons_go.Base.{
  ℕ, String, Bool, true, false, not, ◌&&◌, Option, none, some, if◌then◌else◌,
}

pub data ConnectionState : Type 0 where
  idle connected reconnecting stopped : ConnectionState

pub record ConnectionHealth : Type 0 where
  pub state : ConnectionState
  pub last_error : String

pub record Connection : Type 0 where
  pub is_stopped : Bool
  pub conn : Option ℕ
  pub health : ConnectionHealth

abbrev pub is_stopped_state : ConnectionState → Bool
is_stopped_state stopped = true
is_stopped_state idle = false
is_stopped_state connected = false
is_stopped_state reconnecting = false

abbrev pub error_after : ConnectionState → Option String → String → String
error_after s (some e) old = e
error_after connected none old = ""
error_after idle none old = old
error_after reconnecting none old = old
error_after stopped none old = old

unfoldable pub set_health : ConnectionState → Option String → ConnectionHealth → ConnectionHealth
set_health s err h =
    if is_stopped_state h.state && not (is_stopped_state s)
    then h
    else record { state = s; last_error = error_after s err h.last_error }

unfoldable pub new_connection : Connection
unfolding set_health
new_connection = record {
  is_stopped = false;
  conn = none;
  health = set_health idle none (record { state = idle; last_error = "" });
}

-- A nil error is `none`.
unfoldable pub is_intentional_close : Option String → Bool → Bool
is_intentional_close none is_stopped = is_stopped
is_intentional_close (some _) is_stopped = false

unfoldable pub is_open : (ℕ → Bool) → Connection → Bool
is_open live c = if c.is_stopped then false else elim c.conn [ none ↦ false | some n ↦ live n ]
