-- ===== src/ReplyRouter.antt =====
-- internal/replyrouter/replyrouter.go: replies to the callers that wait for them.
-- A `chan ReplyPayload` of capacity 1 is a number with a place in `buffer`. Each of the operations on
-- the `sync.Map` is one atomic step. Whether a body is JSON with an `errorMessage` is a parameter.
pub mod Delivery
mod Samples
use reactive_commons_go.Base.{
  ℕ, ◌+◌, String, Bool, true, false, List, [], ◌∷◌, Option, none, some, eqb, if◌then◌else◌,
}
use reactive_commons_go.Base.Dict.{Dict, lookup, insert, erase}

pub record ReplyPayload : Type 0 where
  pub body : String
  pub is_error : Bool
  pub is_empty : Bool

pub record ReplyRouter : Type 0 where
  pub channels : Dict ℕ
  pub buffer : ℕ → Option ReplyPayload
  pub fresh : ℕ

abbrev pub new_reply_router : ReplyRouter
new_reply_router = record { channels = []; buffer = λ _. none; fresh = 0 }

unfoldable pub register : String → ReplyRouter → ReplyRouter × ℕ
unfolding insert
register correlation_id r = (
  record r {
    channels = insert correlation_id r.fresh r.channels;
    buffer = λ c. if eqb r.fresh c then none else r.buffer c;
    fresh = r.fresh + 1;
  },
  r.fresh,
)

abbrev pub put_in : ℕ → ReplyPayload → (ℕ → Option ReplyPayload) → ℕ → Option ReplyPayload
put_in ch p buffer c = if eqb ch c then some p else buffer c

unfoldable pub route : String → ReplyPayload → ReplyRouter → ReplyRouter
unfolding lookup
route correlation_id p r = elim (lookup correlation_id r.channels) [
  | none ↦ r
  | some ch ↦ elim (r.buffer ch) [ none ↦ record r { buffer = put_in ch p r.buffer } | some _ ↦ r ]
]

unfoldable pub deregister : String → ReplyRouter → ReplyRouter
unfolding erase
deregister correlation_id r = record r { channels = erase correlation_id r.channels }

pub data AwaitError : Type 0 where
  query_timeout : AwaitError
  handler_error : String → AwaitError

-- A nil body is `none`.
pub data Awaited : Type 0 where
  body : Option String → Awaited
  fails : AwaitError → Awaited

-- `select` takes the reply or the end of the context; `done` is which one it takes if both are ready.
-- Without a reply the call returns once the context ends.
unfoldable pub await_reply :
    (String → Option String) → ℕ → Bool → ReplyRouter → ReplyRouter × Awaited
await_reply error_message ch done r =
    if done then (r, fails query_timeout) else elim (r.buffer ch) [
      | none ↦ (r, fails query_timeout)
      | some p ↦ (
        record r { buffer = λ c. if eqb ch c then none else r.buffer c },
        if p.is_error
            then elim (error_message p.body) [
              | none ↦ fails (handler_error p.body)
              | some m ↦ fails (handler_error m)
            ]
            else if p.is_empty
            then body none
            else body (some p.body),
      )
    ]
