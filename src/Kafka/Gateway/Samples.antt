-- ===== src/Kafka/Gateway/Samples.antt =====
-- Runs of internal/kafka/gateway.go: what is published, within the limit, and what stays registered.
use reactive_commons_go.Base.{refl, String, false, none, some, All}
use reactive_commons_go.Async.{DomainEvent, Command, AsyncQuery, Notification}
use reactive_commons_go.Async.JsonValue.{Json}
use reactive_commons_go.Async.JsonValue
use reactive_commons_go.ReplyRouter.{new_reply_router}
use reactive_commons_go.Kafka.Config.Samples.{shop}
use reactive_commons_go.Kafka.Gateway.{Asked, emit, emit_notification, send_command, request_reply}
use reactive_commons_go.Kafka.Gateway.Requests.{Fits, requests-Fits}

abbrev event : DomainEvent Json
event = record { name = "paid"; event_id = ""; payload = JsonValue.text "7" }

abbrev notification : Notification Json
notification = record { name = "down"; event_id = "n-1"; payload = JsonValue.text "7" }

abbrev command : Command Json
command = record { name = "pay"; command_id = "c-1"; payload = JsonValue.text "7" }

abbrev query : AsyncQuery Json
query = record { resource = "stock"; query_data = JsonValue.text "7" }

abbrev render : Json → String
render _ = "42"

abbrev asked : Asked
asked =
    request_reply (λ v. some v) render shop (λ _. some "no broker") (λ s. some s) none "q-1" query
      "store" none 0 (λ s. s) false new_reply_router

requests-Fits_example :
    All (Fits shop) (emit (λ v. some v) render shop (λ _. some "no broker") "e-1" event).published
    × All
        (Fits shop)
        (emit_notification
          (λ v. some v)
          render
          shop
          (λ _. some "no broker")
          "e-2"
          notification).published
    × All
        (Fits shop)
        (send_command (λ v. some v) render shop (λ _. some "no broker") command "store").published
    × All (Fits shop) asked.published
requests-Fits_example =
    requests-Fits (λ v. some v) render shop (λ _. some "no broker") refl "e-1" event "e-2"
      notification command (λ s. some s) none "q-1" query "store" none 0 (λ s. s) false
      new_reply_router
