-- ===== src/Checkout/Transaction.antt =====
-- The transaction at the end of the handler, which records a new session and returns the URL of the
-- session that the database then holds.
use block_feed_prototype.Prelude.{
  Bool, false, Option, none, some, List, [], ◌∷◌, String, ◌==◌, string_eq,
}
use block_feed_prototype.Promise.{M, pure, throw, ◌>>=◌, ◌>>◌}
use block_feed_prototype.Db.Schema.{CheckoutSession}
use block_feed_prototype.Db.Table.{Table}
use block_feed_prototype.Graphql.Errors.{gql_internal_server_error}
use block_feed_prototype.Checkout.Resolve.{Resolved}

-- The new session: the user, the reference drawn for it, its identifier at Stripe and its URL.
pub record NewSession : Type 0 where
  pub customer_id : String
  pub client_reference_id : String
  pub session_id : String
  pub url : String

-- `eq(clientReferenceId, reference)`; nothing equals a reference that is `undefined`.
abbrev pub has_reference : Option String → CheckoutSession → Bool
has_reference none r = false
has_reference (some reference) r = r.client_reference_id == reference

abbrev pub overwrite : NewSession → CheckoutSession → CheckoutSession
overwrite new r = record r {
  customer_id = new.customer_id;
  session_id = new.session_id;
  client_reference_id = new.client_reference_id;
  url = new.url;
}

abbrev pub new_row : NewSession → String → CheckoutSession
new_row new id = record {
  id = id;
  client_reference_id = new.client_reference_id;
  session_id = new.session_id;
  customer_id = new.customer_id;
  url = new.url;
}

module _ {W : Type 0} (checkout_session : Table W CheckoutSession) (random_uuid : M W String) where
  -- `if (rows.length !== 0)`
  unfoldable pub update_locked : Option String → NewSession → List CheckoutSession → M W (Unit {0})
  update_locked reference new [] = pure tt
  update_locked reference new (r ∷ rows) = do
    affected_rows ← checkout_session.update (overwrite new) (has_reference reference)
    pure tt

  -- Locks the old session, and overwrites it if that succeeds.
  unfoldable pub replace_session : Option String → NewSession → M W (Unit {0})
  unfolding update_locked
  replace_session reference new = do
    rows ← checkout_session.select_for_update (has_reference reference)
    update_locked reference new rows

  unfoldable pub insert_session : NewSession → M W (Unit {0})
  insert_session new = do
    id ← random_uuid
    affected_rows ← checkout_session.insert_ignore (new_row new id)
    pure tt

  -- The branches on `stripeCustomerId` and `clientReferenceId`.
  unfoldable pub save_session : Option String → Option String → NewSession → M W (Unit {0})
  unfolding replace_session insert_session
  save_session (some stripe_customer_id) reference new = replace_session reference new
  save_session none none new = insert_session new
  save_session none (some reference) new = replace_session (some reference) new

  unfoldable pub url_of : Option CheckoutSession → M W String
  url_of none = throw (gql_internal_server_error "unable to create checkout session")
  url_of (some r) = pure r.url

  unfoldable pub current_url : String → M W String
  unfolding url_of
  current_url user_id = do
    res ← checkout_session.find_first (λ r. r.customer_id == user_id)
    url_of res

  unfoldable pub record_session : Resolved → NewSession → M W String
  unfolding save_session current_url
  record_session result new = do
    save_session result.stripe_customer_id result.client_reference_id new
    current_url new.customer_id
