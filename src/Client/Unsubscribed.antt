-- ===== src/Client/Unsubscribed.antt =====
-- A user without a subscription, from the resolver of the server to the page that the client shows.
use block_feed_prototype.Prelude.{
  ℕ, ◌≡◌, refl, true, false, Option, some, List, ◌∷◌, String, ◌==◌, string_eq, All, arith,
}
use block_feed_prototype.Promise.{M, Result, ok, err, Failure, GraphQlError, graphql}
use block_feed_prototype.Db.Schema.{CheckoutSession, sessions_clash}
use block_feed_prototype.Db.Table.{IsTable}
use block_feed_prototype.Graphql.Context.{Context}
use block_feed_prototype.Graphql.Errors.{gql_not_subscribed_error}
use block_feed_prototype.Graphql.RequireSubscription.Laws.{require_stripe_subscription_unknown}
use block_feed_prototype.Webhooks.Inputs.{Zod}
use block_feed_prototype.Webhooks.Resolvers.{Request, Answer, is_valid, Surroundings, resolve}
use block_feed_prototype.Webhooks.Guarded.{resolve-err}
use block_feed_prototype.Client.Errors.{
  graphql_error, code_text, push, is_graphql_error_code, retries_graphql,
  default_query_retry_handler, handle_error, handle_dashboard_error,
}
use block_feed_prototype.Client.Requests.{
  HttpRequest, ExecutionResult, ErrorBody, thrown, request_result, http_request, make_request,
  make_request_or_throw, or_throw, query_fn, use_graphql_dashboard_query,
}

-- The server's answer to a resolver that throws an error of the interface carries the code of that error.
abbrev pub Reports : {A D : Type 0} → (Result A → ExecutionResult D) → Type 0
Reports respond =
    (e : GraphQlError)
    → (message : String) × (more : List ErrorBody) × ((respond (err (graphql e))).errors
        ≡ some (record { message = message; code = some (code_text e.code) } ∷ more))

thrown_code :
    {D : Type 0} (body : ExecutionResult D) (message : String) (code : Option String)
    (more : List ErrorBody)
    → body.errors ≡ some (record { message = message; code = code } ∷ more)
    → or_throw (request_result body) ≡ thrown (graphql_error code)
unfolding request_result
thrown_code body message code more e = rw e refl

never_retried :
    (n : ℕ) → default_query_retry_handler n (graphql_error (some "NOT_SUBSCRIBED")) ≡ false
unfolding default_query_retry_handler retries_graphql is_graphql_error_code string_eq
never_retried n = ground arith

module _ {W Cluster D V : Type 0} (ctx : Context W Cluster) (zod : Zod) (invalid : Failure)
    (around : Surroundings W Cluster) (q : Request) (valid : is_valid zod q ≡ true)
    (respond : Result (Answer q) → ExecutionResult D) (reports : Reports respond)
    (fetch : HttpRequest V → M W (ExecutionResult D)) (document : String) (variables : V)
    (get_token : M W (Option String)) (customer_portal_url : String) where
  refused :
      (sessions : W → List CheckoutSession)
      → IsTable ctx.providers.checkout_session sessions sessions_clash
      → (w : W) (o : Option CheckoutSession)
      → All (λ r. (r.customer_id == ctx.user_id) ≡ false) (sessions w)
      → (ctx.providers.checkout_session.find_first (λ r. r.customer_id == ctx.user_id) w).0 ≡ ok o
      → (resolve ctx zod invalid around q w).0
        ≡ err (gql_not_subscribed_error "user is not subscribed")
  refused sessions table w o none_own found =
      resolve-err ctx zod invalid around q w (gql_not_subscribed_error "user is not subscribed")
        valid
        (require_stripe_subscription_unknown ctx.caches.stripe_checkout_sess ctx.providers.stripe
          ctx.providers.checkout_session sessions table ctx.user_id w o none_own found)

  request_refused :
      (w w' : W) (r : Result (Answer q)) (token : Option String) (e : GraphQlError)
      → fetch (http_request fetch document variables token) w ≡ (ok (respond r), w')
      → r ≡ err (graphql e)
      → (make_request_or_throw fetch document variables token w).0
        ≡ thrown (graphql_error (some (code_text e.code)))
  unfolding make_request_or_throw make_request
  request_refused w w' r token e reaches fails =
      let (message, more, reported) = reports e in
      rw (reaches, fails)
        (thrown_code (respond (err (graphql e))) message (some (code_text e.code)) more reported)

  -- A query of the dashboard that reaches one of the six resolvers of webhooks with valid arguments, for
  -- a user without a checkout session, fails with the code for users who are not subscribed, is not tried again, and
  -- brings the user to the page to subscribe: if the token is at hand and the query for the session
  -- does not fail.
  pub unsubscribed_is_sent :
      (sessions : W → List CheckoutSession)
      → IsTable ctx.providers.checkout_session sessions sessions_clash
      → (w w₁ w₂ : W) (token : Option String) (o : Option CheckoutSession) (failure_count : ℕ)
      → get_token w ≡ (ok token, w₁)
      → fetch (http_request fetch document variables token) w₁
        ≡ (ok (respond (resolve ctx zod invalid around q w₁).0), w₂)
      → All (λ r. (r.customer_id == ctx.user_id) ≡ false) (sessions w₁)
      → (ctx.providers.checkout_session.find_first (λ r. r.customer_id == ctx.user_id) w₁).0 ≡ ok o
      → let query =
          use_graphql_dashboard_query fetch document variables get_token customer_portal_url in
        let e = graphql_error (some "NOT_SUBSCRIBED") in
        ((query.query_fn w).0 ≡ thrown e)
        × (query.retry failure_count e ≡ false)
        × (query.on_error e ≡ some (push "/subscribe"))
  unfolding use_graphql_dashboard_query query_fn handle_dashboard_error handle_error
      is_graphql_error_code string_eq
  unsubscribed_is_sent sessions table w w₁ w₂ token o failure_count has_token reaches none_own
        found =
      (
        rw has_token (
            request_refused w₁ w₂ (resolve ctx zod invalid around q w₁).0 token _ reaches
              (refused sessions table w₁ o none_own found)),
        never_retried failure_count,
        refl,
      )
