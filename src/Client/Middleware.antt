-- ===== src/Client/Middleware.antt =====
-- apps/dashboard/src/middleware.ts: what a request for a page is answered, or what it throws.
use block_feed_prototype.Prelude.{
  Option, none, some, String, concat, ◌==◌, string_eq, if◌then◌else◌,
}
use block_feed_prototype.Promise.{M, invalid_subscription_error, not_subscribed_error, unauthorized}
use block_feed_prototype.Client.Errors.{is_graphql_error_code}
use block_feed_prototype.Client.Requests.{
  HttpRequest, ExecutionResult, Requested, received, returned_error, Settled, fulfilled, thrown,
  awaited, make_request,
}

pub data PageResponse : Type 0 where
  sign_in : PageResponse
  redirect : String → PageResponse
  server_error : PageResponse
  next : PageResponse

-- `res instanceof GraphQLError`, for the code of the error.
unfoldable pub refuse : String → Option String → PageResponse
unfolding is_graphql_error_code
refuse subscribe_url extensions =
    if is_graphql_error_code extensions invalid_subscription_error
    then redirect subscribe_url
    else if is_graphql_error_code extensions not_subscribed_error
    then redirect subscribe_url
    else if is_graphql_error_code extensions unauthorized
    then sign_in
    else server_error

-- `origin` is the protocol and the host of the request.
unfoldable pub answered : {D : Type 0} → String → Settled (Requested D) → Settled PageResponse
unfolding refuse
answered origin (thrown e) = thrown e
answered origin (fulfilled (returned_error code)) =
    fulfilled (refuse (concat origin "/subscribe") code)
answered origin (fulfilled (received d)) = fulfilled next

-- `get_token` is `sess.getToken`, and `document` with `variables` the query for the subscription.
module _ {W V D : Type 0} (fetch : HttpRequest V → M W (ExecutionResult D)) (document : String)
    (variables : V) (get_token : M W (Option String)) (origin : String) where
  unfoldable pub check_page : W → Settled PageResponse × W
  unfolding answered make_request
  check_page w = awaited (get_token w) (λ token w'.
      let (res, w'') = make_request fetch document variables token w' in (answered origin res, w''))

  -- The user of the session and the path of the request.
  unfoldable pub middleware : Option String → String → W → Settled PageResponse × W
  unfolding check_page
  middleware none pathname w = (fulfilled sign_in, w)
  middleware (some user_id) pathname w =
      if pathname == "/subscribe" then (fulfilled next, w) else check_page w
