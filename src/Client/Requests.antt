-- ===== src/Client/Requests.antt =====
-- apps/dashboard/src/client/client.ts and client/hooks/index.ts. `fetch` with the parsing of its answer,
-- and Clerk's `getToken`, are parameters; `Failure` stands for whatever they throw.
use block_feed_prototype.Prelude.{ℕ, Bool, Option, none, some, List, [], ◌∷◌, String, concat}
use block_feed_prototype.Promise.{M, Result, ok, err}
use block_feed_prototype.Client.Errors.{
  ClientError, graphql_error, other_error, Action, default_query_retry_handler,
  handle_dashboard_error,
}

-- The request that is sent: a document and its variables.
pub record HttpRequest (V : Type 0) : Type 0 where
  pub authorization : Option String
  pub query : String
  pub variables : V

-- An error of the answer, with its `extensions.code` if that is a text.
pub record ErrorBody : Type 0 where
  pub message : String
  pub code : Option String

pub record ExecutionResult (D : Type 0) : Type 0 where
  pub errors : Option (List ErrorBody)
  pub data_field : Option D

-- What `makeRequest` returns, unless it throws: data, or a `GraphQLError`.
pub data Requested (D : Type 0) : Type 0 where
  received : D → Requested D
  returned_error : Option String → Requested D

-- `body.errors?.at(0)`
abbrev pub first_error : Option (List ErrorBody) → Option ErrorBody
first_error none = none
first_error (some []) = none
first_error (some (e ∷ es)) = some e

-- How an asynchronous function of the client ends.
pub data Settled (A : Type 0) : Type 0 where
  fulfilled : A → Settled A
  thrown : ClientError → Settled A

abbrev pub request_data : {D : Type 0} → Option D → Settled (Requested D)
request_data none = thrown other_error
request_data (some d) = fulfilled (received d)

-- `if (err != null) …`
abbrev pub requested : {D : Type 0} → Option ErrorBody → Option D → Settled (Requested D)
requested (some e) d = fulfilled (returned_error e.code)
requested none d = request_data d

unfoldable pub request_result : {D : Type 0} → ExecutionResult D → Settled (Requested D)
request_result body = requested (first_error body.errors) body.data_field

-- `{ authorization: … }` if there is a token.
abbrev pub bearer : Option String → Option String
bearer none = none
bearer (some access_token) = some (concat "bearer " access_token)

-- A step that follows a promise of a library.
abbrev pub awaited : {W A B : Type 0} → Result A × W → (A → W → Settled B × W) → Settled B × W
awaited (ok a, w) f = f a w
awaited (err e, w) f = (thrown other_error, w)

abbrev pub or_throw : {D : Type 0} → Settled (Requested D) → Settled D
or_throw (thrown e) = thrown e
or_throw (fulfilled (returned_error code)) = thrown (graphql_error code)
or_throw (fulfilled (received d)) = fulfilled d

module _ {W V D : Type 0} (fetch : HttpRequest V → M W (ExecutionResult D)) (document : String)
    (variables : V) where
  abbrev pub http_request : Option String → HttpRequest V
  http_request access_token = record {
    authorization = bearer access_token;
    query = document;
    variables = variables;
  }

  unfoldable pub make_request : Option String → W → Settled (Requested D) × W
  unfolding request_result
  make_request access_token w =
      awaited (fetch (http_request access_token) w) (λ body w'. (request_result body, w'))

  unfoldable pub make_request_or_throw : Option String → W → Settled D × W
  unfolding make_request
  make_request_or_throw access_token w =
      let (result, w') = make_request access_token w in (or_throw result, w')

  -- `queryFn` and `mutationFn` of the hooks.
  unfoldable pub query_fn : M W (Option String) → W → Settled D × W
  unfolding make_request_or_throw
  query_fn get_token w = awaited (get_token w) (λ token w'. make_request_or_throw token w')

-- What the hooks of the dashboard hand to the query library: the function, whether a failed query is
-- tried again, and what is done about its error.
pub record DashboardQuery (W D : Type 0) : Type 0 where
  pub query_fn : W → Settled D × W
  pub retry : ℕ → ClientError → Bool
  pub on_error : ClientError → Option Action

unfoldable pub use_graphql_dashboard_query :
    {W V D : Type 0}
    → (HttpRequest V → M W (ExecutionResult D))
    → String
    → V
    → M W (Option String)
    → String
    → DashboardQuery W D
use_graphql_dashboard_query fetch document variables get_token customer_portal_url = record {
  query_fn = query_fn fetch document variables get_token;
  retry = default_query_retry_handler;
  on_error = handle_dashboard_error customer_portal_url;
}

-- A mutation is not tried again.
pub record DashboardMutation (W V D : Type 0) : Type 0 where
  pub mutation_fn : V → W → Settled D × W
  pub on_error : ClientError → Option Action

unfoldable pub use_graphql_dashboard_mutation :
    {W V D : Type 0}
    → (HttpRequest V → M W (ExecutionResult D))
    → String
    → M W (Option String)
    → String
    → DashboardMutation W V D
use_graphql_dashboard_mutation fetch document get_token customer_portal_url = record {
  mutation_fn = λ variables. query_fn fetch document variables get_token;
  on_error = handle_dashboard_error customer_portal_url;
}
