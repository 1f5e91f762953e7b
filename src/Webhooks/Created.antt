-- ===== src/Webhooks/Created.antt =====
-- What a successful `webhookCreate` adds to the table.
use block_feed_prototype.Prelude.{
  ℕ, ◌≡◌, refl, ◌<◌, ◌≤◌, Bool, false, Option, none, some, List, [], ◌∷◌, ◌++◌, String, ◌==◌,
  string_eq, nat_eq, eq_of_test, ◌∙◌,
}
use block_feed_prototype.Promise.{
  M, OnOk, Post, Post-bind, Post_of_OnOk, Post_of_Keeps, ◌>>=◌, Keeps,
}
use block_feed_prototype.Db.Schema.{Blockchain, Webhook, webhooks_clash}
use block_feed_prototype.Db.Table.{IsTable, In, Found, clashes_with}
use block_feed_prototype.Db.Effects.{insert_post}
use block_feed_prototype.Graphql.Context.{Context, Crypto}
use block_feed_prototype.Webhooks.Inputs.{CreateData}
use block_feed_prototype.Webhooks.Create
use block_feed_prototype.Webhooks.Create.{new_webhook, insert_webhook, created}

-- `randomInt(min, max)` draws from [min, max); neither source of randomness writes to the table.
pub record IsCrypto {W : Type 0} (crypto : Crypto W) (rows : W → List Webhook) : Type 0 where
  pub uuid_keeps : Keeps rows crypto.random_uuid
  pub int_keeps : (lo hi : ℕ) → Keeps rows (crypto.random_int lo hi)
  pub int_range :
      (lo hi : ℕ) (w : W) → OnOk (crypto.random_int lo hi w).0 (λ n. (lo ≤ n) × (n < hi))

-- The row that was added: inactive, the user's, under a fresh identifier, on a blockchain that the
-- database knows and one of its shards, with the values that were asked for.
pub record IsCreation (user_id now : String) (d : CreateData) (blockchains : List Blockchain)
    (before after : List Webhook) (uuid : String) : Type 0 where
  pub row : Webhook
  pub blockchain : Blockchain
  pub appended : after ≡ before ++ row ∷ []
  pub fresh : clashes_with webhooks_clash row before ≡ false
  pub id : row.id ≡ uuid
  pub created_at : row.created_at ≡ now
  pub inactive : row.is_active ≡ 0
  pub customer : row.customer_id ≡ user_id
  pub url : row.url ≡ d.url
  pub max_blocks : row.max_blocks ≡ d.max_blocks
  pub max_retries : row.max_retries ≡ d.max_retries
  pub timeout_ms : row.timeout_ms ≡ d.timeout_ms
  pub blockchain_id : row.blockchain_id ≡ d.blockchain_id
  pub known : In blockchain blockchains
  pub named : blockchain.id ≡ d.blockchain_id
  pub in_range : row.shard_id < blockchain.shard_count

module _ {W Cluster : Type 0} (ctx : Context W Cluster) (now : String) (d : CreateData)
    (rows : W → List Webhook) (table : IsTable ctx.providers.webhook rows webhooks_clash)
    (blockchains : W → List Blockchain)
    (finds : (p : Blockchain → Bool) (w : W)
      → OnOk (ctx.providers.blockchain.find_first p w).0 (λ o. Found p (blockchains w) o))
    (finds_keeps : (p : Blockchain → Bool) → Keeps rows (ctx.providers.blockchain.find_first p))
    (crypto : IsCrypto ctx.crypto rows) where
  abbrev Created : W → String → W → Type 0
  Created w uuid w' = IsCreation ctx.user_id now d (blockchains w) (rows w) (rows w') uuid

  insert-IsCreation :
      (w w' : W) (o : Option Blockchain)
      → Found (λ b. b.id == d.blockchain_id) (blockchains w) o
      → rows w' ≡ rows w
      → Post
          (insert_webhook ctx now d o w')
          (λ uuid w''. IsCreation ctx.user_id now d (blockchains w) (rows w) (rows w'') uuid)
  unfolding insert_webhook nat_eq
  insert-IsCreation w w' none found same = tt
  insert-IsCreation w w' (some b) found same =
      Post-bind (λ uuid w1. rows w1 ≡ rows w) (Created w) ctx.crypto.random_uuid (λ uuid. draw uuid)
        w' (Post_of_Keeps rows ctx.crypto.random_uuid w' (rows w) crypto.uuid_keeps same)
        λ uuid w1 same1.
          Post-bind (λ n w2. ((0 ≤ n) × (n < b.shard_count)) × (rows w2 ≡ rows w)) (Created w)
            (ctx.crypto.random_int 0 b.shard_count) (λ n. put uuid n) w1
            (Post_of_OnOk (λ n. (0 ≤ n) × (n < b.shard_count)) rows
              (ctx.crypto.random_int 0 b.shard_count w1) (rows w)
              (crypto.int_range 0 b.shard_count w1) (crypto.int_keeps 0 b.shard_count w1 ∙ same1))
            λ n w2 drawn.
              Post-bind (λ count w3. (count ≡ 1) × Created w uuid w3) (Created w)
                (ctx.providers.webhook.insert (new_webhook ctx.user_id now d uuid n)) (created uuid)
                w2
                (insert_post ctx.providers.webhook rows webhooks_clash table
                  (new_webhook ctx.user_id now d uuid n) w2
                  (λ count after.
                    (count ≡ 1) × IsCreation ctx.user_id now d (blockchains w) (rows w) after uuid)
                  (λ fresh. (
                    refl,
                    record {
                      row = new_webhook ctx.user_id now d uuid n;
                      blockchain = b;
                      id = refl;
                      created_at = refl;
                      inactive = refl;
                      customer = refl;
                      url = refl;
                      max_blocks = refl;
                      max_retries = refl;
                      timeout_ms = refl;
                      blockchain_id = refl;
                      appended = rw drawn.1 refl;
                      fresh = rw drawn.1 at fresh;
                      known = found.0;
                      named = eq_of_test b.id d.blockchain_id found.1;
                      in_range = drawn.0.1;
                    },
                  )))
                λ count w3 h. answer uuid count w3 h
    where
      put : String → ℕ → M W String
      put uuid n = do
        count ← ctx.providers.webhook.insert (new_webhook ctx.user_id now d uuid n)
        created uuid count

      draw : String → M W String
      draw uuid = do n ← ctx.crypto.random_int 0 b.shard_count; put uuid n

      answer :
          (uuid : String) (count : ℕ) (w3 : W)
          → (count ≡ 1) × Created w uuid w3
          → Post (created uuid count w3) (Created w)
      answer uuid count w3 h = rw h.0 h.1

  -- A `webhookCreate` that returns an identifier has added one row to the table and changed no other:
  -- inactive, the user's, with the URL, the three limits and the blockchain asked for, on a blockchain
  -- of the database and one of its shards, under that identifier, which no row had.
  pub create-IsCreation :
      (w : W)
      → Post
          (Create.handler ctx now d w)
          (λ uuid w'. IsCreation ctx.user_id now d (blockchains w) (rows w) (rows w') uuid)
  unfolding Create.handler
  create-IsCreation w =
      Post-bind
        (λ o w'. Found (λ b. b.id == d.blockchain_id) (blockchains w) o × (rows w' ≡ rows w))
        (λ uuid w'. IsCreation ctx.user_id now d (blockchains w) (rows w) (rows w') uuid)
        (ctx.providers.blockchain.find_first (λ b. b.id == d.blockchain_id))
        (insert_webhook ctx now d) w
        (Post_of_OnOk (Found (λ b. b.id == d.blockchain_id) (blockchains w)) rows _ (rows w)
          (finds (λ b. b.id == d.blockchain_id) w) (finds_keeps (λ b. b.id == d.blockchain_id) w))
        (λ o w' h. insert-IsCreation w w' o h.0 h.1)
