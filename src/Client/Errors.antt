-- ===== src/Client/Errors.antt =====
-- apps/dashboard/src/client/errors.ts
use block_feed_prototype.Prelude.{
  ℕ, Bool, true, false, not, Option, none, some, String, leb, ◌==◌, string_eq, if◌then◌else◌,
}
use block_feed_prototype.Promise.{
  GraphQlErrorCode, internal_server_error, unauthorized, bad_request, invalid_subscription_error,
  not_subscribed_error,
}

-- The values of the enumeration.
abbrev pub code_text : GraphQlErrorCode → String
code_text internal_server_error = "INTERNAL_SERVER_ERROR"
code_text unauthorized = "UNAUTHORIZED"
code_text bad_request = "BAD_REQUEST"
code_text invalid_subscription_error = "INVALID_SUBSCRIPTION"
code_text not_subscribed_error = "NOT_SUBSCRIBED"

-- A `GraphQLError`, with its `extensions.code` if that is a text, or any other error.
pub data ClientError : Type 0 where
  graphql_error : Option String → ClientError
  other_error : ClientError

unfoldable pub is_graphql_error_code : Option String → GraphQlErrorCode → Bool
is_graphql_error_code none code = false
is_graphql_error_code (some text) code = text == code_text code

-- `constants.reactquery.MAX_QUERY_RETRIES`
abbrev pub max_query_retries : ℕ
max_query_retries = 3

unfoldable pub retries_graphql : Option String → Bool
unfolding is_graphql_error_code
retries_graphql extensions =
    if is_graphql_error_code extensions invalid_subscription_error
    then false
    else if is_graphql_error_code extensions not_subscribed_error
    then false
    else if is_graphql_error_code extensions unauthorized
    then false
    else true

unfoldable pub default_query_retry_handler : ℕ → ClientError → Bool
unfolding retries_graphql
default_query_retry_handler failure_count (graphql_error extensions) =
    if leb max_query_retries failure_count then false else retries_graphql extensions
default_query_retry_handler failure_count other_error = not (leb max_query_retries failure_count)

-- `ErrorCallbacks`: each callback is optional, and yields what the page does.
pub record ErrorCallbacks (A : Type 0) : Type 0 where
  pub on_invalid_subscription_error : Option A
  pub on_not_subscribed_error : Option A
  pub on_unauthorized_error : Option A
  pub on_error : Option A

-- `isGraphQLErrorCode(err, code) && callback != null`, and else what follows.
abbrev pub or_else {ℓ} : {A : Type ℓ} → Bool → Option A → Option A → Option A
or_else true (some action) rest = some action
or_else true none rest = rest
or_else false callback rest = rest

unfoldable pub handle_error : {A : Type 0} → ClientError → ErrorCallbacks A → Option A
unfolding is_graphql_error_code
handle_error other_error callbacks = callbacks.on_error
handle_error (graphql_error extensions) callbacks =
    or_else (is_graphql_error_code extensions invalid_subscription_error)
      callbacks.on_invalid_subscription_error
      (or_else (is_graphql_error_code extensions not_subscribed_error)
        callbacks.on_not_subscribed_error
        (or_else (is_graphql_error_code extensions unauthorized) callbacks.on_unauthorized_error
          callbacks.on_error))

-- What a page does: it goes to an address, to the sign-in, or throws the error on.
pub data Action : Type 0 where
  push : String → Action
  redirect_to_sign_in : Action
  rethrow : Action

unfoldable pub handle_dashboard_error : String → ClientError → Option Action
unfolding handle_error
handle_dashboard_error customer_portal_url err = handle_error err (record {
  on_invalid_subscription_error = some (push customer_portal_url);
  on_not_subscribed_error = some (push "/subscribe");
  on_unauthorized_error = some redirect_to_sign_in;
  on_error = some rethrow;
})
