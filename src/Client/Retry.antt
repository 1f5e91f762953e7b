-- ===== src/Client/Retry.antt =====
-- The retry rule of the queries and the dispatch of their errors agree.
use block_feed_prototype.Prelude.{
  ℕ, ◌≡◌, Bool, true, false, not, ◌&&◌, Option, some, String, leb, arith,
}
use block_feed_prototype.Client.Errors.{
  ClientError, Action, rethrow, max_query_retries, default_query_retry_handler, handle_error,
  handle_dashboard_error,
}

abbrev pub is_rethrown : Option Action → Bool
is_rethrown (some rethrow) = true
is_rethrown _ = false

-- A failed query is retried exactly if it has failed fewer than three times and the dashboard has no
-- remedy for its error, neither an address nor the sign-in, but throws it on.
pub retry-rethrown :
    (customer_portal_url : String) (failure_count : ℕ) (e : ClientError)
    → default_query_retry_handler failure_count e ≡ (
        not (leb max_query_retries failure_count)
        && is_rethrown (handle_dashboard_error customer_portal_url e))
unfolding default_query_retry_handler handle_dashboard_error handle_error
retry-rethrown customer_portal_url failure_count e = ground arith
