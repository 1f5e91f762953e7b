-- ===== src/Dashboard/Paging.antt =====
-- The query for webhooks of apps/dashboard/src/app/page.tsx: what it sends, and where the buttons for
-- the next and the previous page lead.
pub mod Blocks
pub mod Visits
use block_feed_prototype.Prelude.{
  ℕ, ◌≡◌, Bool, true, false, Option, none, some, List, [], ◌∷◌, String, ◌==◌, string_eq,
  if◌then◌else◌,
}
use block_feed_prototype.Db.Schema.{Webhook}
use block_feed_prototype.Promise.{M}
use block_feed_prototype.Graphql.Context.{Context}
use block_feed_prototype.Webhooks.FindMany.{
  EqFilter, LikeFilter, Filters, Cursor, Pagination, Webhooks, Collation, handler,
}
use block_feed_prototype.Dashboard.Search.{PageFilters}

-- `pageParam`; no cursor is an empty identifier.
pub record PageParam : Type 0 where
  pub reverse : Bool
  pub id : String

abbrev pub initial_page_param : PageParam
initial_page_param = record { reverse = false; id = "" }

-- `constants.pagination.limits.LIMIT.MAX`, the limit of every request of the page.
abbrev pub page_limit : ℕ
page_limit = 25

-- `filters` of the variables.
abbrev pub request_filters : PageFilters → Filters
request_filters filters = record {
  conjunction = some (record {
    blockchain = some (record { eq = filters.blockchain });
    is_active = some (record { eq = filters.is_active });
    url = some (record { like = filters.url });
  });
}

-- `pagination` of the variables.
unfoldable pub request_pagination : ℕ → PageParam → Pagination
request_pagination limit param = record {
  limit = limit;
  cursor =
      if param.id == "" then none else some (record { id = param.id; reverse = param.reverse });
}

-- `payload.at(0)?.id ?? ""` and `payload.at(payload.length - 1)?.id ?? ""`
abbrev pub first_id : List Webhook → String
first_id [] = ""
first_id (r ∷ rs) = r.id

abbrev pub last_id : List Webhook → String
last_id [] = ""
last_id (r ∷ []) = r.id
last_id (r ∷ s ∷ rs) = last_id (s ∷ rs)

-- `lastPage` and `pages` of the callbacks.
unfoldable pub get_next_page_param : Webhooks → List Webhooks → Option PageParam
get_next_page_param last_page [] = some initial_page_param
get_next_page_param last_page (page ∷ pages) =
    if last_page.pagination.has_next
    then some (record { reverse = false; id = last_id last_page.payload })
    else none

unfoldable pub get_previous_page_param : Webhooks → List Webhooks → Option PageParam
get_previous_page_param first_page [] = some initial_page_param
get_previous_page_param first_page (page ∷ pages) =
    if first_page.pagination.has_prev
    then some (record { reverse = true; id = first_id first_page.payload })
    else none

-- `queryFn`, answered by the handler of the query.
abbrev pub query_page :
    {W Cluster : Type 0}
    → Context W Cluster
    → Collation
    → PageFilters
    → ℕ
    → PageParam
    → M W Webhooks
query_page ctx db filters limit param =
    handler ctx db (request_filters filters) (request_pagination limit param)
