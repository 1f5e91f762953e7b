-- ===== src/Examples/Subscription.antt =====
-- Users with and without a subscription.
use block_feed_prototype.Prelude.{◌≡◌, refl, ◌↔◌, none, string_eq}
use block_feed_prototype.Promise.{OnOk, ok}
use block_feed_prototype.Stripe.Types.{complete}
use block_feed_prototype.Graphql.RequireSubscription.{check_session, require_stripe_subscription}
use block_feed_prototype.Graphql.RequireSubscription.Laws.{
  IsUsable, Passed, check_session_iff, require_stripe_subscription_sound,
}
use block_feed_prototype.Examples.World.{
  start, stripe, session, sub, cus, checkout_cache, session_table, session_table-IsTable,
  sessions_of_world,
}

check_session_iff_example :
    (((check_session stripe (session complete) start).0 ≡ ok sub)
      ↔ ((complete ≡ complete) × (cus.deleted ≡ none) × IsUsable sub.status × (sub ≡ sub)))
    × ((check_session stripe (session complete) start).1 ≡ start)
check_session_iff_example = check_session_iff stripe (session complete) cus sub sub refl refl start

require_stripe_subscription_sound_example :
    OnOk
      (require_stripe_subscription (checkout_cache complete) stripe session_table "ann" start).0
      (Passed
        (checkout_cache complete)
        stripe
        session_table
        sessions_of_world
        session_table-IsTable
        "ann"
        start)
require_stripe_subscription_sound_example =
    require_stripe_subscription_sound (checkout_cache complete) stripe session_table
      sessions_of_world session_table-IsTable "ann" start
