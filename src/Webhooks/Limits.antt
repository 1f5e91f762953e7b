-- ===== src/Webhooks/Limits.antt =====
-- The resolvers keep every webhook of the table within the limits.
use block_feed_prototype.Prelude.{
  ℕ, ℤ, ◌≤◌, between, Between, between-Between, ◌≡◌, Bool, true, Option, none, some, List, [], ◌∷◌,
  String, string_eq, All, All-append, arith, Bool-cases, inl, inr,
}
use block_feed_prototype.Promise.{Failure, OnOk, Post, Post-map, Keeps}
use block_feed_prototype.Db.Schema.{Blockchain, CheckoutSession, Webhook, webhooks_clash}
use block_feed_prototype.Db.Table.{IsTable, Found, update_rows}
use block_feed_prototype.Db.Effects.{update_post}
use block_feed_prototype.Graphql.Context.{Context}
use block_feed_prototype.Graphql.RequireSubscription.Laws.{ReadsStripe}
use block_feed_prototype.Webhooks.Inputs.{
  Zod, CreateData, UpdateData, valid_create, valid_update, valid_url, optional,
}
use block_feed_prototype.Webhooks.Create
use block_feed_prototype.Webhooks.Create.{new_webhook}
use block_feed_prototype.Webhooks.Update
use block_feed_prototype.Webhooks.Update.{patch, has_changes, or_kept}
use block_feed_prototype.Webhooks.Created.{IsCrypto, IsCreation, create-IsCreation}
use block_feed_prototype.Webhooks.Ownership.{owned}
use block_feed_prototype.Webhooks.Resolvers.{webhook_create, webhook_update}
use block_feed_prototype.Webhooks.Guarded.{guarded-Post}

-- All limits that the dashboard promises for a webhook.
pub record IsWithinLimits (zod : Zod) (r : Webhook) : Type 0 where
  pub is_url : zod.is_url r.url ≡ true
  pub url_length : (1 ≤ zod.length r.url) × (zod.length r.url ≤ 2048)
  pub max_blocks : Between 1 10 r.max_blocks
  pub max_retries : Between 0 10 r.max_retries
  pub timeout_ms : Between 0 10000 r.timeout_ms
  pub blockchain_length : zod.length r.blockchain_id ≤ 1024

or_kept-Between :
    (lo hi : ℕ) (o : Option ℤ) (z : ℤ)
    → optional (between lo hi) o ≡ true
    → Between lo hi z
    → Between lo hi (or_kept o z)
or_kept-Between lo hi none z v h = h
or_kept-Between lo hi (some y) z v h = between-Between lo hi y v

-- What the schema finds of a URL.
abbrev IsShortUrl : Zod → String → Type 0
IsShortUrl zod u = (zod.is_url u ≡ true) × ((1 ≤ zod.length u) × (zod.length u ≤ 2048))

valid_url-IsShortUrl : (zod : Zod) (u : String) → valid_url zod u ≡ true → IsShortUrl zod u
valid_url-IsShortUrl zod u v = (ground arith, (ground arith, ground arith))

or_kept-IsShortUrl :
    (zod : Zod) (o : Option String) (u : String)
    → optional (valid_url zod) o ≡ true
    → IsShortUrl zod u
    → IsShortUrl zod (or_kept o u)
or_kept-IsShortUrl zod none u v h = h
or_kept-IsShortUrl zod (some t) u v h = valid_url-IsShortUrl zod t v

patch-IsWithinLimits :
    (zod : Zod) (id : String) (d : UpdateData) (r : Webhook)
    → valid_update zod id d ≡ true
    → IsWithinLimits zod r
    → IsWithinLimits zod (patch d r)
unfolding patch valid_update
patch-IsWithinLimits zod id d r v h =
    let url = or_kept-IsShortUrl zod d.url r.url (ground arith) (h.is_url, h.url_length) in
    record {
      is_url = url.0;
      url_length = url.1;
      max_blocks = or_kept-Between 1 10 d.max_blocks r.max_blocks (ground arith) h.max_blocks;
      max_retries = or_kept-Between 0 10 d.max_retries r.max_retries (ground arith) h.max_retries;
      timeout_ms = or_kept-Between 0 10000 d.timeout_ms r.timeout_ms (ground arith) h.timeout_ms;
      blockchain_length = h.blockchain_length;
    }

creation-IsWithinLimits :
    (zod : Zod) (user_id now uuid : String) (d : CreateData) (blockchains : List Blockchain)
    (before after : List Webhook) (c : IsCreation user_id now d blockchains before after uuid)
    → valid_create zod d ≡ true
    → IsWithinLimits zod c.row
unfolding valid_create
creation-IsWithinLimits zod user_id now uuid d blockchains before after c v =
    let url = valid_url-IsShortUrl zod d.url (ground arith) in
    record {
      is_url = rw c.url url.0;
      url_length = rw c.url url.1;
      max_blocks = rw c.max_blocks (between-Between 1 10 d.max_blocks (ground arith));
      max_retries = rw c.max_retries (between-Between 0 10 d.max_retries (ground arith));
      timeout_ms = rw c.timeout_ms (between-Between 0 10000 d.timeout_ms (ground arith));
      blockchain_length = rw c.blockchain_id (ground arith);
    }

update_rows-All :
    (zod : Zod) (f : Webhook → Webhook) (p : Webhook → Bool) (rows : List Webhook)
    → ((r : Webhook) → IsWithinLimits zod r → IsWithinLimits zod (f r))
    → All (IsWithinLimits zod) rows
    → All (IsWithinLimits zod) (update_rows f p rows)
update_rows-All zod f p [] h a = tt
update_rows-All zod f p (r ∷ rows) h a = elim (Bool-cases (p r)) [
  | inl e ↦ rw e (h r a.0, update_rows-All zod f p rows h a.1)
  | inr e ↦ rw e (a.0, update_rows-All zod f p rows h a.1)
]

module _ {W Cluster : Type 0} (ctx : Context W Cluster) (zod : Zod) (invalid : Failure)
    (rows : W → List Webhook) (reads : ReadsStripe rows ctx.providers.stripe)
    (cached : (key id : String) → Keeps rows (ctx.caches.stripe_checkout_sess.get_or_set key id))
    (looks : (p : CheckoutSession → Bool)
      → Keeps rows (ctx.providers.checkout_session.find_first p)) where
  module _ (table : IsTable ctx.providers.webhook rows webhooks_clash) where
    update-IsWithinLimits :
        (id : String) (d : UpdateData) (w : W)
        → valid_update zod id d ≡ true
        → All (IsWithinLimits zod) (rows w)
        → Post (Update.handler ctx id d w) (λ n w'. All (IsWithinLimits zod) (rows w'))
    unfolding Update.handler
    update-IsWithinLimits id d w v a = elim (Bool-cases (has_changes d)) [
      | inr e ↦ rw e a
      | inl e ↦
          let q =
            update_rows-All zod (patch d) (owned ctx.user_id id) (rows w)
              (λ r h. patch-IsWithinLimits zod id d r v h) a in
          rw e (
            update_post ctx.providers.webhook rows webhooks_clash table (patch d)
              (owned ctx.user_id id) w (λ n after. All (IsWithinLimits zod) after) q)
    ]

    -- An update that returns leaves every webhook of the table within its limits (a URL of up to 2048
    -- characters, 1 to 10 blocks, up to 10 retries, a timeout of up to 10000 ms, and a blockchain whose
    -- identifier has up to 1024 characters), if every one was before and the subscription check leaves the table alone.
    pub webhook_update-IsWithinLimits :
        (id : String) (d : UpdateData) (w : W)
        → All (IsWithinLimits zod) (rows w)
        → Post (webhook_update ctx zod invalid id d w) (λ n w'. All (IsWithinLimits zod) (rows w'))
    unfolding webhook_update
    webhook_update-IsWithinLimits id d w a =
        guarded-Post ctx zod invalid rows reads cached looks (valid_update zod id d)
          (Update.handler ctx id d) (λ n w'. All (IsWithinLimits zod) (rows w')) w
          (λ v w' same. update-IsWithinLimits id d w' v (rw same a))

    -- A creation that returns leaves every webhook of the table within the same limits, if every one was
    -- before and the subscription check, the query for the blockchain and the random draws leave the
    -- table alone.
    pub webhook_create-IsWithinLimits :
        (blockchains : W → List Blockchain)
        → ((p : Blockchain → Bool) (w : W)
            → OnOk (ctx.providers.blockchain.find_first p w).0 (λ o. Found p (blockchains w) o))
        → ((p : Blockchain → Bool) → Keeps rows (ctx.providers.blockchain.find_first p))
        → IsCrypto ctx.crypto rows
        → (now : String) (d : CreateData) (w : W) → All (IsWithinLimits zod) (rows w)
        → Post
            (webhook_create ctx zod invalid now d w)
            (λ uuid w'. All (IsWithinLimits zod) (rows w'))
    unfolding webhook_create
    webhook_create-IsWithinLimits blockchains finds finds_keeps crypto now d w a =
        guarded-Post ctx zod invalid rows reads cached looks (valid_create zod d)
          (Create.handler ctx now d) (λ uuid w'. All (IsWithinLimits zod) (rows w')) w
          (λ v w' same.
            Post-map
              (λ uuid w''. IsCreation ctx.user_id now d (blockchains w') (rows w') (rows w'') uuid)
              _ (Create.handler ctx now d w')
              (λ uuid w'' c. rw c.appended (
                All-append (IsWithinLimits zod) (rows w') (c.row ∷ []) (rw same a) (
                  creation-IsWithinLimits zod ctx.user_id now uuid d (blockchains w') (rows w')
                      (rows w'') c v,
                  tt,
                )))
              (create-IsCreation ctx now d rows table blockchains finds finds_keeps crypto w'))
