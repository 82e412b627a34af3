-- ===== src/Rabbit/Gateway/Durations.antt =====
-- internal/rabbit/gateway.go: the time that a query leaves for its reply, from the caller to the
-- responder.
use reactive_commons_go.Base.{
  if-cases, suc, ℕ, ◌+◌, ◌-◌, ◌*◌, ◌/◌, ◌^◌, ◌≤◌, ◌<◌, ◌≡◌, refl, sym, ◌∙◌, ap, String_discrete,
  if◌then◌else◌, String, true, false, suc, Option, none, some, arith,
}
use reactive_commons_go.Base.Dict.{Dict, lookup}
use reactive_commons_go.Base.Decimal.{format_nat, parse_int, parse_int-format_nat, format_nat-zero}
use reactive_commons_go.Base.Int.{ℤ, pos, negsuc, pos_part, sub_ℕ, ltb_ℤ}
use reactive_commons_go.Async.Headers.{reply_timeout_millis}
use reactive_commons_go.Rabbit.Config.{Config}
use reactive_commons_go.Rabbit.Headers.{HeaderValue, text}
use reactive_commons_go.Rabbit.Gateway.{
  millis_of, milliseconds, header_duration_millis, reply_context, request_deadline, timeout_ms,
  query_headers,
}

found_duration :
    (headers : Dict HeaderValue) (key : String) (v : HeaderValue) (ms : ℤ)
    → lookup key headers ≡ some v
    → millis_of v ≡ some ms
    → header_duration_millis headers key ≡ milliseconds ms
unfolding header_duration_millis
found_duration headers key v ms found read = ground (arith, found, read)

-- A header of `ms` milliseconds is read as that time up to 9223372036854 ms (about 292 years); from
-- there to 18446744073709 ms the product overflows, and the time is negative: the context of the reply
-- has ended before the reply is sent.
pub header_duration_millis_lem :
    (headers : Dict HeaderValue) (key : String) (v : HeaderValue) (ms : ℕ)
    → lookup key headers ≡ some v
    → millis_of v ≡ some (pos ms)
    → 0 < ms
    → (ms ≤ 9223372036854 → header_duration_millis headers key ≡ some (pos (ms * 1000000)))
      × (9223372036854 < ms
          → ms ≤ 18446744073709
          → header_duration_millis headers key ≡ some (negsuc (2 ^ 64 - 1 - ms * 1000000)))
header_duration_millis_lem headers key v ms found read positive =
    let e = found_duration headers key v (pos ms) found read in
    (λ small. rw e (ground arith), λ big small. rw e (ground arith))

-- What is left of the caller's time after `elapsed`, 0 where nothing limits it: the caller's own
-- deadline counts, or the configured timeout where the caller has none.
unfoldable pub time_left : Config → Option ℤ → ℕ → ℕ
time_left cfg (some (pos d)) elapsed = d - elapsed
time_left cfg (some (negsuc d)) elapsed = 0
time_left cfg none elapsed = pos_part cfg.reply_timeout - elapsed

written_timeout :
    (cfg : Config) (deadline : Option ℤ) (elapsed : ℕ)
    → timeout_ms (request_deadline cfg deadline) elapsed
      ≡ format_nat (time_left cfg deadline elapsed / 1000000)
unfolding timeout_ms request_deadline time_left
written_timeout cfg (some (pos d)) elapsed = ap (λ n. format_nat (n / 1000000)) (ground arith)
written_timeout cfg (some (negsuc d)) elapsed =
    let passed : pos_part (sub_ℕ 0 (suc d + elapsed)) ≡ 0 = ground arith in
    ap (λ n. format_nat (n / 1000000)) passed
written_timeout cfg none elapsed =
    if-cases
      (λ o. timeout_ms o elapsed ≡ format_nat ((pos_part cfg.reply_timeout - elapsed) / 1000000))
      (ltb_ℤ (pos 0) cfg.reply_timeout) (some cfg.reply_timeout) none
      (λ limited. ap (λ n. format_nat (n / 1000000)) (ground (arith, limited)))
      (λ unlimited.
        let nothing : 0 ≡ (pos_part cfg.reply_timeout - elapsed) / 1000000 =
          ground (arith, unlimited) in
        sym format_nat-zero ∙ ap format_nat nothing)

timeout_header :
    (cfg : Config) (reply_queue id resource ms : String)
    → lookup reply_timeout_millis (query_headers cfg reply_queue id resource ms) ≡ some (text ms)
unfolding query_headers lookup String_discrete
timeout_header cfg reply_queue id resource ms = refl

read_context :
    (cfg : Config) (headers : Dict HeaderValue) (d : Option ℤ)
    → header_duration_millis headers reply_timeout_millis ≡ d
    → reply_context cfg headers ≡ elim d [
      | some t ↦ some t
      | none ↦ if ltb_ℤ (pos 0) cfg.reply_timeout then some cfg.reply_timeout else none
    ]
unfolding reply_context
read_context cfg headers d e = ground (arith, e)

-- The responder gets what was left of the caller's time, in whole milliseconds, for its reply: the
-- caller's own deadline, or the configured timeout where it has none, less the time that passed before
-- the headers were written. With less than a millisecond left, a deadline that has passed, or no limit
-- at all, it falls back to its own configured timeout, and has no limit if that is not positive. Less
-- than 2^63 ns are taken to be left, as in a Go duration.
pub reply_context-query_headers :
    (cfg responder : Config) (reply_queue id resource : String) (deadline : Option ℤ) (elapsed : ℕ)
    → time_left cfg deadline elapsed < 2 ^ 63
    → let headers =
        query_headers cfg reply_queue id resource
          (timeout_ms (request_deadline cfg deadline) elapsed) in
      let left = time_left cfg deadline elapsed in
      (1000000 ≤ left → reply_context responder headers ≡ some (pos (left / 1000000 * 1000000)))
      × (left < 1000000
          → ltb_ℤ (pos 0) responder.reply_timeout ≡ true
          → reply_context responder headers ≡ some responder.reply_timeout)
      × (left < 1000000
          → ltb_ℤ (pos 0) responder.reply_timeout ≡ false
          → reply_context responder headers ≡ none)
reply_context-query_headers cfg responder reply_queue id resource deadline elapsed b =
    let left = time_left cfg deadline elapsed in
    let ms : parse_int (format_nat (left / 1000000)) ≡ some (pos (left / 1000000)) =
      parse_int-format_nat (left / 1000000) (omega (arith, b)) in
    let s = timeout_ms (request_deadline cfg deadline) elapsed in
    let read : parse_int s ≡ some (pos (left / 1000000)) =
      rw (written_timeout cfg deadline elapsed) ms in
    let headers = query_headers cfg reply_queue id resource s in
    let d =
      found_duration headers reply_timeout_millis (text s) (pos (left / 1000000))
        (timeout_header cfg reply_queue id resource s) read in
    let c = read_context responder headers (milliseconds (pos (left / 1000000))) d in
    (
      λ long. c ∙ ground (arith, b, long),
      λ short limit. c ∙ ground (arith, short, limit),
      λ short limit. c ∙ ground (arith, short, limit),
    )
