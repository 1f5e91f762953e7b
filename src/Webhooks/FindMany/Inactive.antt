-- ===== src/Webhooks/FindMany/Inactive.antt =====
-- The filter on `isActive` of find-many.ts, when it asks for the webhooks that are not active.
use block_feed_prototype.Prelude.{◌≡◌, refl, Bool, false, Option, none, some, String}
use block_feed_prototype.Graphql.Context.{Context}
use block_feed_prototype.Webhooks.FindMany.{
  EqFilter, LikeFilter, Filters, Pagination, Collation, filter_tests, find_page, handler,
}

abbrev pub filters_for :
    Option (EqFilter String) → Option LikeFilter → Option (EqFilter Bool) → Filters
filters_for blockchain url is_active = record {
  conjunction = some (record { blockchain = blockchain; is_active = is_active; url = url });
}

filter_tests-inactive :
    (db : Collation) (user_id : String) (blockchain : Option (EqFilter String))
    (url : Option LikeFilter)
    → filter_tests db user_id (filters_for blockchain url (some (record { eq = some false })))
      ≡ filter_tests db user_id (filters_for blockchain url none)
unfolding filter_tests
filter_tests-inactive db user_id blockchain url = refl

module _ {W Cluster : Type 0} (ctx : Context W Cluster) (db : Collation) where
  -- A request for the inactive webhooks is answered like one that does not filter on the status:
  -- whatever the other filters and the page, the answer and the effects are the same.
  pub inactive_filter_ignored :
      (blockchain : Option (EqFilter String)) (url : Option LikeFilter) (pagination : Pagination)
      (w : W)
      → handler ctx db (filters_for blockchain url (some (record { eq = some false }))) pagination w
        ≡ handler ctx db (filters_for blockchain url none) pagination w
  unfolding handler find_page filter_tests
  inactive_filter_ignored blockchain url pagination w = refl
