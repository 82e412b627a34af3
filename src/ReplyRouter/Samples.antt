-- ===== src/ReplyRouter/Samples.antt =====
-- Runs of internal/replyrouter/replyrouter.go for two callers.
use reactive_commons_go.Base.{
  String, ◌≡◌, ◌≢◌, refl, false, List, [], ◌∷◌, arith, Option, none, some, String_discrete,
}
use reactive_commons_go.Base.Dict.{lookup, insert, erase}
use text.Mathlib.TextEquality.{eq_iff}
use reactive_commons_go.ReplyRouter.{
  ReplyPayload, ReplyRouter, register, route, deregister, new_reply_router, await_reply, body,
}
use reactive_commons_go.ReplyRouter.Delivery.{
  IsValid, operations-IsValid, Operation, registers, deregisters, routes, key, run, act, AllOther,
  none_left, and_other,
}

abbrev reply : ReplyPayload
reply = record { body = "42"; is_error = false; is_empty = false }

abbrev late : ReplyPayload
late = record { body = "43"; is_error = false; is_empty = false }

abbrev no_message : String → Option String
no_message _ = none

new-IsValid : IsValid new_reply_router
unfolding lookup
new-IsValid = record {
  made = λ id ch e. ground (arith, e);
  once = λ id other ch e f. ground (arith, e);
}

abbrev meanwhile : List Operation
meanwhile = registers "b" ∷ routes "b" late ∷ deregisters "b" ∷ []

b≢a : ◌≢◌ {A = String} "b" "a"
b≢a e = ground (arith, eq_iff "b" "a", e)

meanwhile-AllOther : AllOther "a" meanwhile
unfolding key
meanwhile-AllOther = and_other (registers "b") (routes "b" late ∷ deregisters "b" ∷ []) b≢a (
    and_other (routes "b" late) (deregisters "b" ∷ []) b≢a
      (and_other (deregisters "b") [] b≢a none_left))

round_trip_value :
    let (t, ch) = register "a" new_reply_router in
    (await_reply no_message ch false (route "a" late (route "a" reply (run meanwhile t)))).1
    ≡ body (some "42")
unfolding register route deregister await_reply run act lookup insert erase String_discrete
round_trip_value = refl

abbrev one : ReplyRouter
one = (register "a" new_reply_router).0

one-IsValid : IsValid one
one-IsValid = (operations-IsValid "a" reply new_reply_router new-IsValid).0
