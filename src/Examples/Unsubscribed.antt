-- ===== src/Examples/Unsubscribed.antt =====
-- The query of a user without a checkout session, answered by the server in memory.
use block_feed_prototype.Prelude.{
  ℕ, ◌≡◌, refl, true, false, Option, none, some, [], ◌∷◌, String, ◌==◌, string_eq,
}
use block_feed_prototype.Promise.{M, Result, ok, err, Failure, graphql, other}
use block_feed_prototype.Db.Memory.{find}
use block_feed_prototype.Stripe.Types.{complete}
use block_feed_prototype.Graphql.Context.{Context}
use block_feed_prototype.Webhooks.Inputs.{Zod, valid_ids}
use block_feed_prototype.Webhooks.Resolvers.{Surroundings, remove_request, resolve}
use block_feed_prototype.Client.Errors.{graphql_error, code_text, push}
use block_feed_prototype.Client.Requests.{
  HttpRequest, ExecutionResult, thrown, use_graphql_dashboard_query,
}
use block_feed_prototype.Client.Unsubscribed.{Reports, unsubscribed_is_sent}
use block_feed_prototype.Examples.World.{
  World, context, start, sessions_of_world, session_table-IsTable,
}

abbrev zod : Zod
zod = record { is_url = λ s. true; is_uuid = λ s. true; length = λ s. 10 }

abbrev eve : Context World String
eve = record (context complete) { user_id = "eve" }

abbrev around : Surroundings World String
around = record {
  collation = record { created_lt = λ s t. false; id_lt = λ s t. false; like = λ s t. true };
  now = "4";
  run_script = λ c k p ids w. (ok tt, w);
  decimal = λ n. "0";
}

abbrev code_of : Failure → Option String
code_of (graphql e) = some (code_text e.code)
code_of (other text) = none

abbrev respond : Result ℕ → ExecutionResult ℕ
respond (ok n) = record { errors = none; data_field = some n }
respond (err e) = record {
  errors = some (record { message = ""; code = code_of e } ∷ []);
  data_field = none;
}

abbrev fetch : HttpRequest ℕ → M World (ExecutionResult ℕ)
fetch request w =
    (ok (respond (resolve eve zod (other "invalid") around (remove_request ("w2" ∷ [])) w).0), w)

respond-Reports : Reports respond
respond-Reports e = ("", [], refl)

abbrev get_token : M World (Option String)
get_token w = (ok (some "token"), w)

none_found :
    (eve.providers.checkout_session.find_first (λ r. r.customer_id == "eve") start).0 ≡ ok none
unfolding find string_eq
none_found = refl

unsubscribed_is_sent_example :
    let query = use_graphql_dashboard_query fetch "webhookRemove" 0 get_token "https://portal" in
    ((query.query_fn start).0 ≡ thrown (graphql_error (some "NOT_SUBSCRIBED")))
    × (query.retry 2 (graphql_error (some "NOT_SUBSCRIBED")) ≡ false)
    × (query.on_error (graphql_error (some "NOT_SUBSCRIBED")) ≡ some (push "/subscribe"))
unfolding string_eq valid_ids
unsubscribed_is_sent_example =
    unsubscribed_is_sent eve zod (other "invalid") around (remove_request ("w2" ∷ [])) refl respond
      respond-Reports fetch "webhookRemove" 0 get_token "https://portal" sessions_of_world
      session_table-IsTable start start start (some "token") none 2 refl refl (refl, (refl, tt))
      none_found
