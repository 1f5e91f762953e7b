-- ===== src/Graphql/Errors.antt =====
-- apps/dashboard/src/server/graphql/errors.ts
use block_feed_prototype.Prelude.{ℕ, String}
use block_feed_prototype.Promise.{
  GraphQlErrorCode, internal_server_error, unauthorized, bad_request, invalid_subscription_error,
  not_subscribed_error, Failure, graphql,
}

abbrev gql_make_error : GraphQlErrorCode → ℕ → String → Failure
gql_make_error code status msg = graphql (record { code = code; status = status; msg = msg })

abbrev pub gql_not_subscribed_error : String → Failure
gql_not_subscribed_error = gql_make_error not_subscribed_error 400

abbrev pub gql_invalid_subscription_error : String → Failure
gql_invalid_subscription_error = gql_make_error invalid_subscription_error 400

abbrev pub gql_bad_request_error : String → Failure
gql_bad_request_error = gql_make_error bad_request 400

abbrev pub gql_unauthorized_error : String → Failure
gql_unauthorized_error = gql_make_error unauthorized 401

abbrev pub gql_internal_server_error : String → Failure
gql_internal_server_error = gql_make_error internal_server_error 500
