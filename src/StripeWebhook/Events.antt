-- ===== src/StripeWebhook/Events.antt =====
-- The event handlers of consumer/src/index.ts. The two promises of a deletion run one after the other.
use block_feed_prototype.Prelude.{
  Option, none, some, List, [], ◌∷◌, String, concat, ◌==◌, string_eq,
}
use block_feed_prototype.Promise.{M, Result, ok, err, Failure, other, pure, throw, ◌>>=◌}
use block_feed_prototype.Caching.Types.{AsyncCache}
use block_feed_prototype.Db.Schema.{CheckoutSession}
use block_feed_prototype.Db.Table.{Table}
use block_feed_prototype.Stripe.Types.{
  Client, Expandable, id_of, expanded, Metadata, Session, Subscription,
}
use block_feed_prototype.Webhooks.Activate.{all_settled}

-- `Stripe.Event`: its type, with what the handlers read of `data.object`.
pub data Event : Type 0 where
  checkout_session_completed : Option Metadata → Event
  invoice_paid invoice_payment_failed invoice_payment_succeeded :
      Option (Expandable Subscription) → Event
  invoice_upcoming : Event
  customer_deleted : String → Event
  customer_subscription_deleted customer_subscription_updated customer_subscription_created :
      Metadata → Event
  customer_subscription_resumed customer_subscription_paused : Metadata → Event
  customer_subscription_trial_will_end : Event
  other_event : String → Event

-- `event.type`
abbrev pub event_type : Event → String
event_type (checkout_session_completed m) = "checkout.session.completed"
event_type (invoice_paid s) = "invoice.paid"
event_type (invoice_payment_failed s) = "invoice.payment_failed"
event_type (invoice_payment_succeeded s) = "invoice.payment_succeeded"
event_type invoice_upcoming = "invoice.upcoming"
event_type (customer_deleted id) = "customer.deleted"
event_type (customer_subscription_deleted m) = "customer.subscription.deleted"
event_type (customer_subscription_updated m) = "customer.subscription.updated"
event_type (customer_subscription_created m) = "customer.subscription.created"
event_type (customer_subscription_resumed m) = "customer.subscription.resumed"
event_type (customer_subscription_paused m) = "customer.subscription.paused"
event_type customer_subscription_trial_will_end = "customer.subscription.trial_will_end"
event_type (other_event name) = name

-- The errors that `zod` throws for metadata without a `userId`, and for a list of failures as JSON.
pub record Texts : Type 0 where
  pub no_user_id : Failure
  pub json_of_event : Event → String
  pub json_of_errors : List Failure → String

-- `event.data.object.metadata ?? {}`
abbrev pub or_no_metadata : Option Metadata → Metadata
or_no_metadata none = record { user_id = none }
or_no_metadata (some metadata) = metadata

-- The reasons of the rejected promises.
unfoldable pub rejections : List (Result (Unit {0})) → List Failure
rejections [] = []
rejections (ok a ∷ results) = rejections results
rejections (err e ∷ results) = e ∷ rejections results

-- `transaction` runs a body in a transaction of the database.
module _ {W : Type 0} (texts : Texts) (cache : AsyncCache W Session) (stripe : Client W)
    (checkout_session : Table W CheckoutSession)
    (transaction : M W (Unit {0}) → M W (Unit {0})) where
  unfoldable pub parse_metadata : Metadata → M W String
  parse_metadata metadata = elim metadata.user_id [
    | none ↦ throw texts.no_user_id
    | some user_id ↦ pure user_id
  ]

  unfoldable pub throw_errors : List Failure → M W (Unit {0})
  throw_errors [] = pure tt
  throw_errors (e ∷ errs) = throw (other (texts.json_of_errors (e ∷ errs)))

  unfoldable pub handle_promise_settled_results : List (Result (Unit {0})) → M W (Unit {0})
  unfolding rejections throw_errors
  handle_promise_settled_results results = throw_errors (rejections results)

  unfoldable pub forget_cached : String → M W (Unit {0})
  forget_cached user_id = do removed ← cache.invalidate user_id; pure tt

  unfoldable pub delete_sessions : String → M W (Unit {0})
  delete_sessions user_id =
      transaction
        (do affected_rows ← checkout_session.delete (λ r. r.customer_id == user_id); pure tt)

  -- The end of `handleCustomerDeleted`, for a user that is known.
  unfoldable pub delete_user : String → M W (Unit {0})
  unfolding all_settled handle_promise_settled_results forget_cached delete_sessions
  delete_user user_id w =
      let (settled, w') = all_settled (forget_cached user_id ∷ delete_sessions user_id ∷ []) w in
      handle_promise_settled_results settled w'

  unfoldable pub handle_first_subscription : List Subscription → M W (Unit {0})
  unfolding parse_metadata delete_user
  handle_first_subscription [] = pure tt
  handle_first_subscription (sub ∷ subs) = do
    user_id ← parse_metadata sub.metadata
    delete_user user_id

  unfoldable pub handle_customer_deleted : String → M W (Unit {0})
  unfolding handle_first_subscription
  handle_customer_deleted id = do
    subscriptions ← stripe.list_subscriptions id 1
    handle_first_subscription subscriptions

  -- `getMetadata` for an invoice.
  unfoldable pub invoice_user : Event → Option (Expandable Subscription) → M W String
  unfolding parse_metadata
  invoice_user event none = throw (
      other
        (concat "subscription is missing in checkout session event:\n" (texts.json_of_event event)))
  invoice_user event (some (id_of id)) = do
    sub ← stripe.retrieve_subscription id
    parse_metadata sub.metadata
  invoice_user event (some (expanded sub)) = parse_metadata sub.metadata

  unfoldable pub invalidate_cached_subscription : M W String → M W (Unit {0})
  invalidate_cached_subscription get_metadata = do
    user_id ← get_metadata
    removed ← cache.invalidate user_id
    pure tt

  unfoldable pub consume_event : Event → M W (Unit {0})
  unfolding parse_metadata invoice_user invalidate_cached_subscription handle_customer_deleted
  consume_event (checkout_session_completed metadata) =
      invalidate_cached_subscription (parse_metadata (or_no_metadata metadata))
  consume_event (invoice_paid s) = invalidate_cached_subscription (invoice_user (invoice_paid s) s)
  consume_event (invoice_payment_failed s) =
      invalidate_cached_subscription (invoice_user (invoice_payment_failed s) s)
  consume_event (invoice_payment_succeeded s) =
      invalidate_cached_subscription (invoice_user (invoice_payment_succeeded s) s)
  consume_event invoice_upcoming = pure tt
  consume_event (customer_deleted id) = handle_customer_deleted id
  consume_event (customer_subscription_deleted metadata) =
      invalidate_cached_subscription (parse_metadata metadata)
  consume_event (customer_subscription_updated metadata) =
      invalidate_cached_subscription (parse_metadata metadata)
  consume_event (customer_subscription_created metadata) =
      invalidate_cached_subscription (parse_metadata metadata)
  consume_event (customer_subscription_resumed metadata) =
      invalidate_cached_subscription (parse_metadata metadata)
  consume_event (customer_subscription_paused metadata) =
      invalidate_cached_subscription (parse_metadata metadata)
  consume_event customer_subscription_trial_will_end = pure tt
  consume_event (other_event name) = pure tt
