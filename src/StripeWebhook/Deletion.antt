-- ===== src/StripeWebhook/Deletion.antt =====
-- A customer that Stripe has deleted: what becomes of the checkout sessions of the database.
use block_feed_prototype.Prelude.{
  ◌≡◌, refl, Option, some, none, ap, ◌∙◌, Bool, false, not, List, [], ◌∷◌, String, ◌==◌, string_eq,
  keep, All, arith,
}
use block_feed_prototype.Promise.{
  M, Result, ok, err, OnOk, Post, Post-bind, Keeps, Keeps-bind, Keeps-pure, Fails, pure, throw,
  ◌>>=◌,
}
use block_feed_prototype.Caching.Types.{AsyncCache}
use block_feed_prototype.Db.Schema.{CheckoutSession, sessions_clash}
use block_feed_prototype.Db.Table.{Table, IsTable, delete_rows}
use block_feed_prototype.Db.Rows.{keep-delete_rows, delete_rows-All}
use block_feed_prototype.Db.Effects.{delete_post}
use block_feed_prototype.Stripe.Types.{Client, Session, Subscription}
use block_feed_prototype.Webhooks.Activate.{all_settled}
use block_feed_prototype.StripeWebhook.Events.{
  Texts, rejections, throw_errors, handle_promise_settled_results, forget_cached, delete_sessions,
  delete_user, parse_metadata, handle_first_subscription, handle_customer_deleted,
}

abbrev pub of_user : String → CheckoutSession → Bool
of_user user_id r = r.customer_id == user_id

abbrev pub of_other_users : String → CheckoutSession → Bool
of_other_users user_id r = not (r.customer_id == user_id)

-- A transaction that fails is rolled back, and one that succeeds has done what its body did.
pub record IsTransaction {W : Type 0} (rows : W → List CheckoutSession)
    (transaction : M W (Unit {0}) → M W (Unit {0})) : Type 0 where
  pub rolled_back :
      (body : M W (Unit {0})) (w : W)
      → Fails (transaction body w)
      → rows (transaction body w).1 ≡ rows w
  pub committed :
      (body : M W (Unit {0})) (w : W)
      → OnOk (transaction body w).0 (λ _. transaction body w ≡ body w)

module _ {W : Type 0} (texts : Texts) (cache : AsyncCache W Session) (stripe : Client W)
    (checkout_session : Table W CheckoutSession) (transaction : M W (Unit {0}) → M W (Unit {0}))
    (rows : W → List CheckoutSession) (table : IsTable checkout_session rows sessions_clash)
    (transactions : IsTransaction rows transaction)
    (cached : (key : String) → Keeps rows (cache.invalidate key)) where
  -- What became of the rows: those of the user are gone or all are as before.
  Deleted : String → W → Result (Unit {0}) × W → Type 0
  Deleted user_id w (ok a, w') = rows w' ≡ delete_rows (of_user user_id) (rows w)
  Deleted user_id w (err e, w') = rows w' ≡ rows w

  body : String → M W (Unit {0})
  body user_id = do affected_rows ← checkout_session.delete (of_user user_id); pure tt

  body-Post :
      (user_id : String) (w : W)
      → Post (body user_id w) (λ _ w'. rows w' ≡ delete_rows (of_user user_id) (rows w))
  unfolding body
  body-Post user_id w =
      Post-bind (λ n w'. rows w' ≡ delete_rows (of_user user_id) (rows w))
        (λ _ w'. rows w' ≡ delete_rows (of_user user_id) (rows w))
        (checkout_session.delete (of_user user_id)) (λ n. pure tt) w
        (delete_post checkout_session rows sessions_clash table (of_user user_id) w
          (λ n after. after ≡ delete_rows (of_user user_id) (rows w)) refl)
        (λ n w' h. h)

  transaction-Deleted :
      (user_id : String) (w : W) (r : Result (Unit {0}) × W)
      → (Fails r → rows r.1 ≡ rows w)
      → OnOk r.0 (λ _. r ≡ body user_id w)
      → Deleted user_id w r
  unfolding Deleted
  transaction-Deleted user_id w (ok a, w') failed done = rw (← done) at (body-Post user_id w)
  transaction-Deleted user_id w (err e, w') failed done = failed (e, refl)

  delete_sessions-Deleted :
      (user_id : String) (w : W)
      → Deleted user_id w
          (delete_sessions texts cache stripe checkout_session transaction user_id w)
  unfolding delete_sessions body
  delete_sessions-Deleted user_id w =
      transaction-Deleted user_id w (transaction (body user_id) w)
        (transactions.rolled_back (body user_id) w) (transactions.committed (body user_id) w)

  forget_cached-Keeps :
      (user_id : String)
      → Keeps rows (forget_cached texts cache stripe checkout_session transaction user_id)
  unfolding forget_cached
  forget_cached-Keeps user_id =
      Keeps-bind rows (cache.invalidate user_id) (λ n. pure tt) (cached user_id)
        (λ n. Keeps-pure rows tt)

  -- What `handlePromiseSettledResults` makes of the two promises.
  Handled : String → W → Result (Unit {0}) × W → Type 0
  Handled user_id w r =
      (keep (of_other_users user_id) (rows r.1) ≡ keep (of_other_users user_id) (rows w))
      × Post r (λ _ w'. All (λ r. of_user user_id r ≡ false) (rows w'))

  others-delete_rows :
      (user_id : String) (rs : List CheckoutSession)
      → keep (of_other_users user_id) (delete_rows (of_user user_id) rs)
        ≡ keep (of_other_users user_id) rs
  others-delete_rows user_id rs =
      keep-delete_rows (of_other_users user_id) (of_user user_id) (λ r e. ground arith) rs

  settled-Handled :
      (user_id : String) (w : W) (a b : Result (Unit {0})) (w' : W)
      → Deleted user_id w (b, w')
      → Handled user_id w (
          handle_promise_settled_results texts cache stripe checkout_session transaction
            (a ∷ b ∷ [])
            w')
  unfolding Handled Deleted handle_promise_settled_results rejections throw_errors
  settled-Handled user_id w (ok a) (ok b) w' h = (
    ap (keep (of_other_users user_id)) h ∙ others-delete_rows user_id (rows w),
    rw h (delete_rows-All (of_user user_id) (rows w)),
  )
  settled-Handled user_id w (err e) (ok b) w' h =
      (ap (keep (of_other_users user_id)) h ∙ others-delete_rows user_id (rows w), tt)
  settled-Handled user_id w (ok a) (err f) w' h = (ap (keep (of_other_users user_id)) h, tt)
  settled-Handled user_id w (err e) (err f) w' h = (ap (keep (of_other_users user_id)) h, tt)

  delete_user_sessions :
      (user_id : String) (w : W)
      → (keep
            (of_other_users user_id)
            (rows (delete_user texts cache stripe checkout_session transaction user_id w).1)
          ≡ keep (of_other_users user_id) (rows w))
        × Post
            (delete_user texts cache stripe checkout_session transaction user_id w)
            (λ _ w'. All (λ r. of_user user_id r ≡ false) (rows w'))
  unfolding delete_user all_settled Handled
  delete_user_sessions user_id w =
      let r1 = forget_cached texts cache stripe checkout_session transaction user_id w in
      let r2 = delete_sessions texts cache stripe checkout_session transaction user_id r1.1 in
      let h = settled-Handled user_id r1.1 r1.0 r2.0 r2.1 (delete_sessions-Deleted user_id r1.1) in
      (h.0 ∙ ap (keep (of_other_users user_id)) (forget_cached-Keeps user_id w), h.1)

  -- What becomes of the sessions, by the subscriptions that Stripe lists for the customer: without one,
  -- and without a user in its metadata, nothing; else only those of that user may go.
  abbrev pub ForgottenUser : Option String → W → Result (Unit {0}) × W → Type 0
  ForgottenUser none w r = Fails r × (rows r.1 ≡ rows w)
  ForgottenUser (some user_id) w r =
      (keep (of_other_users user_id) (rows r.1) ≡ keep (of_other_users user_id) (rows w))
      × Post r (λ _ w'. All (λ r. of_user user_id r ≡ false) (rows w'))

  abbrev pub Forgotten : List Subscription → W → Result (Unit {0}) × W → Type 0
  Forgotten [] w r = (r.0 ≡ ok tt) × (rows r.1 ≡ rows w)
  Forgotten (sub ∷ subs) w r = ForgottenUser sub.metadata.user_id w r

  named-ForgottenUser :
      (o : Option String) (w : W)
      → ForgottenUser o w (
          ((elim o [ none ↦ throw texts.no_user_id | some user_id ↦ pure user_id ]) >>= λ user_id.
          delete_user texts cache stripe checkout_session transaction user_id)
            w)
  named-ForgottenUser none w = ((texts.no_user_id, refl), refl)
  named-ForgottenUser (some user_id) w = delete_user_sessions user_id w

  first-Forgotten :
      (subs : List Subscription) (w : W)
      → Forgotten subs w
          (handle_first_subscription texts cache stripe checkout_session transaction subs w)
  unfolding handle_first_subscription parse_metadata
  first-Forgotten [] w = (refl, refl)
  first-Forgotten (sub ∷ subs) w = named-ForgottenUser sub.metadata.user_id w

  same-ForgottenUser :
      (o : Option String) (w w' : W) (r : Result (Unit {0}) × W)
      → rows w' ≡ rows w
      → ForgottenUser o w' r
      → ForgottenUser o w r
  same-ForgottenUser none w w' r e h = (h.0, h.1 ∙ e)
  same-ForgottenUser (some user_id) w w' r e h = (h.0 ∙ ap (keep (of_other_users user_id)) e, h.1)

  same-Forgotten :
      (subs : List Subscription) (w w' : W) (r : Result (Unit {0}) × W)
      → rows w' ≡ rows w
      → Forgotten subs w' r
      → Forgotten subs w r
  same-Forgotten [] w w' r e h = (h.0, h.1 ∙ e)
  same-Forgotten (sub ∷ subs) w w' r e h = same-ForgottenUser sub.metadata.user_id w w' r e h

  -- When Stripe has deleted a customer, the sessions that may go are those of the user whom the metadata
  -- of the customer's first subscription names: those of all other users stay as they are, however the
  -- handler ends, and if it returns, that user has none left. If Stripe lists no subscription, the
  -- handler returns and all sessions stay; if the metadata names no user, it fails and all stay. The
  -- listing and the cache leave the sessions alone.
  pub handle_customer_deleted-Forgotten :
      (id : String) (subs : List Subscription) (w w' : W)
      → stripe.list_subscriptions id 1 w ≡ (ok subs, w')
      → rows w' ≡ rows w
      → Forgotten subs w
          (handle_customer_deleted texts cache stripe checkout_session transaction id w)
  unfolding handle_customer_deleted
  handle_customer_deleted-Forgotten id subs w w' listed same =
      rw listed (same-Forgotten subs w w' _ same (first-Forgotten subs w'))
