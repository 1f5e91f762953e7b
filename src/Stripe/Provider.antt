-- ===== src/Stripe/Provider.antt =====
-- packages/node/providers/stripe/src/provider.ts
use block_feed_prototype.Prelude.{Option, none, some, String}
use block_feed_prototype.Promise.{M, pure, ◌>>=◌}
use block_feed_prototype.Stripe.Types.{
  id_of, expanded, Customer, Subscription, Session, Metadata, Client,
}

abbrev pub webhook_event_stream_name : String
webhook_event_stream_name = "block-feed:stripe:webhook-event"

abbrev pub event_field : String
event_field = "event"

abbrev pub make_metadata : String → Metadata
make_metadata user_id = record { user_id = some user_id }

module _ {W : Type 0} (client : Client W) where
  unfoldable pub extract_stripe_subscription : Session → M W (Option Subscription)
  extract_stripe_subscription sess = elim sess.subscription [
    | none ↦ pure none
    | some (id_of id) ↦ do sub ← client.retrieve_subscription id; pure (some sub)
    | some (expanded sub) ↦ pure (some sub)
  ]

  unfoldable pub extract_stripe_customer : Session → M W (Option Customer)
  extract_stripe_customer sess = elim sess.customer [
    | none ↦ pure none
    | some (id_of id) ↦ do customer ← client.retrieve_customer id; pure (some customer)
    | some (expanded customer) ↦ pure (some customer)
  ]
