-- ===== src/Dashboard/SearchStatus.antt =====
-- The status that a user searches for, on its way from the form to the database: webhook-search.form.tsx,
-- page.tsx and find-many.ts.
use block_feed_prototype.Prelude.{ℕ, ◌≡◌, refl, ◌∙◌, sym, Option, none, some, String}
use block_feed_prototype.Graphql.Context.{Context}
use block_feed_prototype.Webhooks.FindMany.{Collation, filter_tests, find_page, handler}
use block_feed_prototype.Dashboard.Search.{SearchForm, status_filter, filled, search_filters}
use block_feed_prototype.Dashboard.Paging.{PageParam, query_page}

module _ {W Cluster : Type 0} (ctx : Context W Cluster) (db : Collation) where
  status_dropped :
      (blockchain url status : Option String) (limit : ℕ) (param : PageParam) (w : W)
      → query_page ctx db
          (record { blockchain = blockchain; is_active = status_filter status; url = url })
          limit
          param
          w
        ≡ query_page ctx db
            (record { blockchain = blockchain; is_active = none; url = url })
            limit
            param
            w
  unfolding handler find_page filter_tests
  status_dropped blockchain url none limit param w = refl
  status_dropped blockchain url (some status) limit param w = refl

  -- Whatever status is picked in the form, or none, every page of the search is answered in the same
  -- way and with the same effects.
  pub search_status_ignored :
      (form : SearchForm) (status : Option String) (limit : ℕ) (param : PageParam) (w : W)
      → query_page ctx db (search_filters form) limit param w
        ≡ query_page ctx db (search_filters (record form { status = status })) limit param w
  unfolding search_filters
  search_status_ignored form status limit param w =
      status_dropped (filled form.blockchain) (filled form.url) form.status limit param w
      ∙ sym (status_dropped (filled form.blockchain) (filled form.url) status limit param w)
