-- ===== src/Rabbit/Registry/Samples.antt =====
-- Runs of internal/rabbit/registry.go on a concrete table; a handler is a number.
use reactive_commons_go.Base.{
  ℕ, String, ◌≡◌, refl, ◌⊎◌, List, [], ◌∷◌, arith, none, some, String_discrete,
}
use reactive_commons_go.Base.Dict.{lookup, insert, keys}
use reactive_commons_go.Async.{ok}
use reactive_commons_go.Handlers.{Visits, Resolves}
use reactive_commons_go.Rabbit.Registry.{Table, listen, find_handler}
use reactive_commons_go.Rabbit.Registry.Cache.{CacheIsValid}
use reactive_commons_go.Rabbit.Registry.Lookup.{find_handler-Resolves}

abbrev table : Table ℕ
table = record { handlers = ("orders.*", some 7) ∷ []; cache = none }

abbrev visited : List String
visited = "orders.*" ∷ []

table-CacheIsValid : CacheIsValid table
table-CacheIsValid name pat e = ground (arith, e)

table-Visits : Visits table.handlers visited
unfolding keys
table-Visits k = (λ x. x, λ x. x)

find_handler-Resolves_example :
    Resolves table.handlers "orders.created" (find_handler table table visited "orders.created").1
    ⊎ Resolves table.handlers "orders.created" (find_handler table table visited "orders.created").1
find_handler-Resolves_example =
    find_handler-Resolves table table visited "orders.created" table-CacheIsValid table-CacheIsValid
      table-Visits

abbrev larger : Table ℕ
larger = record { handlers = ("orders.*", some 7) ∷ ("orders.created", some 9) ∷ []; cache = none }

listens : listen "orders.created" (some 9) table ≡ ok larger
unfolding listen lookup insert String_discrete
listens = refl
