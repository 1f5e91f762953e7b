-- ===== src/Checkout/Stale.antt =====
-- Two ways in which a checkout returns, or fails to return, the session that the database holds.
use block_feed_prototype.Prelude.{
  ◌≤◌, ◌⊎◌, ◌≡◌, refl, ◌∙◌, true, false, Option, none, some, List, [], ◌∷◌, String, string_eq, All,
  All-of, ℕ, Bool, ap, inl, inr,
}
use block_feed_prototype.Promise.{M, OnOk, Post, Post-bind, Post-map, Post_of_OnOk, Keeps}
use block_feed_prototype.Db.Schema.{CheckoutSession, sessions_clash}
use block_feed_prototype.Db.Table.{Table, IsTable, In, Found}
use block_feed_prototype.Checkout.Resolve.{Resolved}
use block_feed_prototype.Checkout.Transaction.{
  NewSession, has_reference, update_locked, replace_session, save_session, current_url,
  record_session,
}
use block_feed_prototype.Checkout.Settled.{own, sessions_of}
use block_feed_prototype.Checkout.Late.{settled-current_url}
use block_feed_prototype.Promise.{OnOk-bind, OnOk_of_Post, Post_of_state, ok}
use block_feed_prototype.Caching.RedisCache.{Redis, Json, prefix_with_namespace}
use block_feed_prototype.Caching.RedisCache.Laws.{IsStore, get_or_set_hit}
use block_feed_prototype.Providers.{
  checkout_namespace, create_checkout_session_cache, with_callback,
}
use block_feed_prototype.Providers.Shared.{with_callback-inj}
use block_feed_prototype.Graphql.Context.{Context}
use block_feed_prototype.Stripe.Types.{Session, expired}
use block_feed_prototype.Checkout.Resolve.{
  empty, renewal, customer_id?, resolve_status, resolve_existing, resolve_checkout_session,
}

module _ {W : Type 0} (checkout_session : Table W CheckoutSession) (random_uuid : M W String)
    (rows : W → List CheckoutSession) (table : IsTable checkout_session rows sessions_clash)
    (uuids : Keeps rows random_uuid) where
  -- If the only session of the user has the old reference, and another transaction has it locked, then
  -- the checkout writes nothing, and the URL that it returns is that of the old session.
  pub locked_returns_old :
      (result : Resolved) (reference : String) (new : NewSession) (row : CheckoutSession) (w : W)
      → result.client_reference_id ≡ some reference
      → OnOk
          (checkout_session.select_for_update (has_reference (some reference)) w).0
          (λ rs. rs ≡ [])
      → sessions_of new.customer_id (rows w) ≤ 1
      → In row (rows w)
      → own new.customer_id row ≡ true
      → Post
          (record_session checkout_session random_uuid result new w)
          (λ u w'. (u ≡ row.url) × (rows w' ≡ rows w))
  unfolding record_session replace_session update_locked save_session
  locked_returns_old result reference new row w referred locked one held owned =
      Post-bind (λ _ w'. rows w' ≡ rows w) (λ u w'. (u ≡ row.url) × (rows w' ≡ rows w))
        (save_session checkout_session random_uuid result.stripe_customer_id
          result.client_reference_id new)
        (λ _. current_url checkout_session random_uuid new.customer_id) w
        (rw referred (skipped result.stripe_customer_id))
        (λ _ w' same.
          Post-map (λ u w''. (u ≡ row.url) × (rows w'' ≡ rows w')) _ _
            (λ u w'' h. (h.0, h.1 ∙ same))
            (settled-current_url checkout_session random_uuid rows table uuids new.customer_id none
              row.url w'
              (rw same (record {
                one = one;
                row = row;
                held = held;
                owned = owned;
                has_url = refl;
                replaced = All-of (λ r. has_reference none r ≡ false) (λ r. refl) (rows w);
              }))))
    where
      nothing :
          (rs : List CheckoutSession) (w' : W)
          → (rs ≡ []) × (rows w' ≡ rows w)
          → Post
              (update_locked checkout_session random_uuid (some reference) new rs w')
              (λ _ w''. rows w'' ≡ rows w)
      nothing [] w' h = h.1
      nothing (r ∷ rs) w' h = cc h.0

      skip :
          Post
            (replace_session checkout_session random_uuid (some reference) new w)
            (λ _ w'. rows w' ≡ rows w)
      skip =
          Post-bind (λ rs w'. (rs ≡ []) × (rows w' ≡ rows w)) (λ _ w'. rows w' ≡ rows w)
            (checkout_session.select_for_update (has_reference (some reference)))
            (update_locked checkout_session random_uuid (some reference) new) w
            (Post_of_OnOk (λ rs. rs ≡ []) rows
              (checkout_session.select_for_update (has_reference (some reference)) w) (rows w)
              locked (table.select_for_update_keeps (has_reference (some reference)) w))
            nothing

      skipped :
          (customer : Option String)
          → Post
              (save_session checkout_session random_uuid customer (some reference) new w)
              (λ _ w'. rows w' ≡ rows w)
      skipped none = skip
      skipped (some c) = skip

-- The cache of checkout sessions is the one that the API opens on Redis, and Stripe's answers are those
-- of `retrieve`.
module _ {W Cluster : Type 0} (ctx : Context W Cluster) (redis : Redis W)
    (store : W → String → Option String) (lawful : IsStore redis store) (json : Json Session)
    (retrieve : String → List String → M W Session) (ms : ℕ)
    (made : create_checkout_session_cache redis json retrieve (some ms)
      ≡ with_callback ctx.caches.stripe_checkout_sess)
    (rows : W → List CheckoutSession)
    (table : IsTable ctx.providers.checkout_session rows sessions_clash)
    (finds : (p : CheckoutSession → Bool)
      → Keeps store (ctx.providers.checkout_session.find_first p)) where
  -- What resolving makes of the user's row: a renewal, from the cached session.
  abbrev pub Renewed : Session → W → Resolved → Type 0
  Renewed sess w r =
      ((r ≡ empty) × All (λ row. own ctx.user_id row ≡ false) (rows w))
      ⊎ ((row : CheckoutSession) × In row (rows w)
          × (own ctx.user_id row ≡ true)
          × (r ≡ renewal row (customer_id? sess.customer)))

  cached_is_returned :
      (id text : String) (sess : Session) (w : W)
      → store w (prefix_with_namespace (some checkout_namespace) ctx.user_id) ≡ some text
      → json.parse text ≡ ok (some sess)
      → OnOk (ctx.caches.stripe_checkout_sess.get_or_set ctx.user_id id w).0 (λ s. s ≡ sess)
  unfolding create_checkout_session_cache
  cached_is_returned id text sess w held parsed = rw (← with_callback-inj made) (
      get_or_set_hit redis store lawful json (some checkout_namespace) (some ms)
        (λ id. retrieve id ("subscription" ∷ "customer" ∷ [])) ctx.user_id id w text sess held
        parsed)

  renewed :
      (row : CheckoutSession) (sess s : Session) (w w' : W)
      → In row (rows w)
      → own ctx.user_id row ≡ true
      → sess.status ≡ expired
      → s ≡ sess
      → OnOk (resolve_status ctx row s s.status w').0 (Renewed sess w)
  unfolding resolve_status
  renewed row sess s w w' i o e same = rw (same, e) (inr (row, i, o, refl))

  existing-Renewed :
      (text : String) (sess : Session) (w w' : W) (o : Option CheckoutSession)
      → json.parse text ≡ ok (some sess)
      → sess.status ≡ expired
      → Found (own ctx.user_id) (rows w) o
      → store w' (prefix_with_namespace (some checkout_namespace) ctx.user_id) ≡ some text
      → OnOk (resolve_existing ctx o w').0 (Renewed sess w)
  unfolding resolve_existing
  existing-Renewed text sess w w' none p e h held = inl (refl, h)
  existing-Renewed text sess w w' (some row) p e h held =
      OnOk-bind (λ s. s ≡ sess) (Renewed sess w)
        (ctx.caches.stripe_checkout_sess.get_or_set ctx.user_id row.session_id)
        (λ sess. resolve_status ctx row sess sess.status) w'
        (cached_is_returned row.session_id text sess w' held p)
        (λ s w'' same. renewed row sess s w w'' h.0 h.1 e same)

  -- While Redis holds an expired session under the identifier of the user, resolving never yields the URL
  -- of the row of the user, whichever session that row names by now and whatever Stripe would answer
  -- for it: if it returns, it asks for another renewal of that row, for the customer of the expired
  -- session, or the user has no row.
  pub stale_renewal :
      (text : String) (sess : Session) (w : W)
      → store w (prefix_with_namespace (some checkout_namespace) ctx.user_id) ≡ some text
      → json.parse text ≡ ok (some sess)
      → sess.status ≡ expired
      → OnOk (resolve_checkout_session ctx w).0 (Renewed sess w)
  unfolding resolve_checkout_session
  stale_renewal text sess w held parsed e =
      OnOk_of_Post (λ r w'. Renewed sess w r) (resolve_checkout_session ctx w)
        (Post-bind (λ o w'. Found (own ctx.user_id) (rows w) o × (store w' ≡ store w))
          (λ r w'. Renewed sess w r) (ctx.providers.checkout_session.find_first (own ctx.user_id))
          (resolve_existing ctx) w
          (Post_of_OnOk (Found (own ctx.user_id) (rows w)) store
            (ctx.providers.checkout_session.find_first (own ctx.user_id) w) (store w)
            (table.find_first_value (own ctx.user_id) w) (finds (own ctx.user_id) w))
          (λ o w' h.
            Post_of_state (λ r w''. Renewed sess w r) (resolve_existing ctx o w')
              (existing-Renewed text sess w w' o parsed e h.0 (
                ap (λ s. s (prefix_with_namespace (some checkout_namespace) ctx.user_id)) h.1
                ∙ held))))
