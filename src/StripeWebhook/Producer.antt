-- ===== src/StripeWebhook/Producer.antt =====
-- producer/src/index.ts
use block_feed_prototype.Prelude.{String}
use block_feed_prototype.Promise.{M}
use block_feed_prototype.Stripe.Provider.{webhook_event_stream_name, event_field}
use block_feed_prototype.StripeWebhook.Events.{Event}

-- `xadd` takes the stream, an identifier (`*` to have one drawn), and a field with its value.
module _ {W : Type 0} (xadd : String → String → String → String → M W String)
    (stringify : Event → String) where
  unfoldable pub produce : Event → M W String
  produce event = xadd webhook_event_stream_name "*" event_field (stringify event)
