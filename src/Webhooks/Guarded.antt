-- ===== src/Webhooks/Guarded.antt =====
-- Every resolver validates its arguments, asks for a subscription, and runs its handler.
use block_feed_prototype.Prelude.{
  ◌≡◌, refl, ap, Bool, true, false, Option, List, String, ◌==◌, string_eq, All, if◌then◌else◌,
}
use block_feed_prototype.Promise.{
  M, Result, ok, err, Failure, throw, continue, Post, Post-bind, Post_of_Keeps, Keeps, Fails,
  Fails-first, Fails-Keeps, ◌>>=◌,
}
use block_feed_prototype.Db.Schema.{CheckoutSession, Webhook, sessions_clash}
use block_feed_prototype.Db.Table.{IsTable}
use block_feed_prototype.Graphql.Context.{Context, require_subscription}
use block_feed_prototype.Graphql.Errors.{gql_not_subscribed_error}
use block_feed_prototype.Graphql.RequireSubscription.Laws.{
  ReadsStripe, require_stripe_subscription-Keeps, require_stripe_subscription_unknown,
}
use block_feed_prototype.Webhooks.Inputs.{Zod}
use block_feed_prototype.Webhooks.FindOne
use block_feed_prototype.Webhooks.FindMany
use block_feed_prototype.Webhooks.Create
use block_feed_prototype.Webhooks.Update
use block_feed_prototype.Webhooks.Remove
use block_feed_prototype.Webhooks.Activate
use block_feed_prototype.Webhooks.Resolvers.{
  webhook, webhooks, webhook_create, webhook_update, webhook_remove, webhook_activate, Request,
  webhook_request, webhooks_request, create_request, update_request, remove_request,
  activate_request, Answer, is_valid, Surroundings, resolve,
}

continue-err :
    {W A B : Type 0} (r : Result A × W) (f : A → M W B) (e : Failure)
    → r.0 ≡ err e
    → (continue r f).0 ≡ err e
continue-err (ok a, w) f e h = cc
continue-err (err e', w) f e h = let same : e' ≡ e = cc in ap err same

module _ {W Cluster : Type 0} (ctx : Context W Cluster) (zod : Zod) (invalid : Failure) where
  -- The common shape of the resolvers.
  abbrev pub guarded : {A : Type 0} → Bool → M W A → M W A
  guarded valid handler =
      if valid then (require_subscription ctx >>= λ _. handler) else throw invalid

  abbrev pub handle : Surroundings W Cluster → (q : Request) → M W (Answer q)
  handle around (webhook_request id) = FindOne.handler ctx id
  handle around (webhooks_request filters pagination) =
      FindMany.handler ctx around.collation filters pagination
  handle around (create_request d) = Create.handler ctx around.now d
  handle around (update_request id d) = Update.handler ctx id d
  handle around (remove_request ids) = Remove.handler ctx ids
  handle around (activate_request ids) = Activate.handler ctx around.run_script around.decimal ids

  pub resolve-guarded :
      (around : Surroundings W Cluster) (q : Request)
      → resolve ctx zod invalid around q ≡ guarded (is_valid zod q) (handle around q)
  unfolding resolve webhook webhooks webhook_create webhook_update webhook_remove webhook_activate
  resolve-guarded around (webhook_request id) = refl
  resolve-guarded around (webhooks_request filters pagination) = refl
  resolve-guarded around (create_request d) = refl
  resolve-guarded around (update_request id d) = refl
  resolve-guarded around (remove_request ids) = refl
  resolve-guarded around (activate_request ids) = refl

  -- The error of the check is the error of a resolver with valid arguments.
  pub resolve-err :
      (around : Surroundings W Cluster) (q : Request) (w : W) (e : Failure)
      → is_valid zod q ≡ true
      → (require_subscription ctx w).0 ≡ err e
      → (resolve ctx zod invalid around q w).0 ≡ err e
  resolve-err around q w e v h =
      rw (resolve-guarded around q, v)
        (continue-err (require_subscription ctx w) (λ _. handle around q) e h)

  module _ (rows : W → List Webhook) (reads : ReadsStripe rows ctx.providers.stripe)
      (cached : (key id : String) → Keeps rows (ctx.caches.stripe_checkout_sess.get_or_set key id))
      (looks : (p : CheckoutSession → Bool)
        → Keeps rows (ctx.providers.checkout_session.find_first p)) where
    pub require_subscription-Keeps : Keeps rows (require_subscription ctx)
    require_subscription-Keeps =
        require_stripe_subscription-Keeps ctx.caches.stripe_checkout_sess ctx.providers.stripe
          ctx.providers.checkout_session rows reads cached looks ctx.user_id

    -- What a handler achieves on valid arguments, from the same rows, its resolver achieves.
    pub guarded-Post :
        {A : Type 0} (valid : Bool) (handler : M W A) (Q : A → W → Type 0) (w : W)
        → (valid ≡ true → (w' : W) → rows w' ≡ rows w → Post (handler w') Q)
        → Post (guarded valid handler w) Q
    guarded-Post true handler Q w h =
        Post-bind (λ _ w'. rows w' ≡ rows w) Q (require_subscription ctx) (λ _. handler) w
          (Post_of_Keeps rows (require_subscription ctx) w (rows w) require_subscription-Keeps refl)
          (λ _ w' same. h refl w' same)
    guarded-Post false handler Q w h = tt

    guarded_unknown :
        {A : Type 0} (sessions : W → List CheckoutSession)
        → IsTable ctx.providers.checkout_session sessions sessions_clash
        → (valid : Bool) (handler : M W A) (w : W) (o : Option CheckoutSession)
        → All (λ r. (r.customer_id == ctx.user_id) ≡ false) (sessions w)
        → (ctx.providers.checkout_session.find_first (λ r. r.customer_id == ctx.user_id) w).0 ≡ ok o
        → Fails (guarded valid handler w) × (rows (guarded valid handler w).1 ≡ rows w)
    guarded_unknown sessions table true handler w o none_own found =
        let f : Fails (require_subscription ctx w) = (
          gql_not_subscribed_error "user is not subscribed",
          require_stripe_subscription_unknown ctx.caches.stripe_checkout_sess ctx.providers.stripe
              ctx.providers.checkout_session sessions table ctx.user_id w o none_own found,
        ) in
        (
          Fails-first (require_subscription ctx) (λ _. handler) w f,
          Fails-Keeps rows (require_subscription ctx) (λ _. handler) w f require_subscription-Keeps,
        )
    guarded_unknown sessions table false handler w o none_own found = ((invalid, refl), refl)

    -- For a user without a checkout session each of the six resolvers fails, whatever its arguments, and
    -- leaves the webhooks as they are, if the query for the session does not fail and the
    -- subscription check leaves the webhooks alone.
    pub resolve_unknown :
        (sessions : W → List CheckoutSession)
        → IsTable ctx.providers.checkout_session sessions sessions_clash
        → (around : Surroundings W Cluster) (q : Request) (w : W) (o : Option CheckoutSession)
        → All (λ r. (r.customer_id == ctx.user_id) ≡ false) (sessions w)
        → (ctx.providers.checkout_session.find_first (λ r. r.customer_id == ctx.user_id) w).0 ≡ ok o
        → Fails (resolve ctx zod invalid around q w)
          × (rows (resolve ctx zod invalid around q w).1 ≡ rows w)
    resolve_unknown sessions table around q w o none_own found =
        rw (resolve-guarded around q)
          (guarded_unknown sessions table (is_valid zod q) (handle around q) w o none_own found)
