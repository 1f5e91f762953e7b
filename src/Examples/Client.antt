-- ===== src/Examples/Client.antt =====
-- A request for a page, by a user whose query for the subscription is answered with data.
use block_feed_prototype.Prelude.{
  ℕ, ◌≡◌, ◌⊎◌, ◌↔◌, true, Option, none, some, String, ◌==◌, string_eq,
}
use block_feed_prototype.Promise.{M, ok}
use block_feed_prototype.Client.Requests.{HttpRequest, ExecutionResult, fulfilled}
use block_feed_prototype.Client.Middleware.{middleware, next}
use block_feed_prototype.Client.Access.{Subscribed, middleware-next_iff}

abbrev user : Option String
user = some "ann"

abbrev path : String
path = "/webhooks"

abbrev fetch : HttpRequest ℕ → M ℕ (ExecutionResult ℕ)
fetch request w = (ok (record { errors = none; data_field = some 1 }), w)

abbrev get_token : M ℕ (Option String)
get_token w = (ok (some "token"), w)

middleware-next_iff_example :
    ((middleware fetch "stripeSubscription" 0 get_token "https://feed" user path 0).0
      ≡ fulfilled next)
    ↔ (((id : String) × (user ≡ some id))
        × (((path == "/subscribe") ≡ true)
            ⊎ Subscribed fetch "stripeSubscription" 0 get_token "https://feed" 0))
middleware-next_iff_example =
    middleware-next_iff fetch "stripeSubscription" 0 get_token "https://feed" user path 0
