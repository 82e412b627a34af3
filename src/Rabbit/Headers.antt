-- ===== src/Rabbit/Headers.antt =====
-- AMQP header tables (`amqp.Table`), as internal/rabbit/querylistener.go and gateway.go read them.
-- A nil table has no entry.
use reactive_commons_go.Base.{String, none, some}
use reactive_commons_go.Base.Dict.{Dict, lookup}
use reactive_commons_go.Base.Int.{ℤ}

-- The dynamic types that the code tells apart.
pub data HeaderValue : Type 0 where
  text bytes : String → HeaderValue
  int int32 int64 : ℤ → HeaderValue
  -- a `float64`, by the `int64` that it converts to
  float64 : ℤ → HeaderValue
  nil other : HeaderValue

unfoldable pub header_string : Dict HeaderValue → String → String
unfolding lookup
header_string headers key = elim (lookup key headers) [
  | none ↦ ""
  | some v ↦ elim v [ text s ↦ s | _ ↦ "" ]
]
