-- ===== src/Db/Schema.antt =====
-- packages/node/db/src/generated/schema.ts. Columns that the program never reads are left out:
-- `created_at` of the tables but `webhook`, and the store addresses of a blockchain.
use block_feed_prototype.Prelude.{ℕ, ℤ, Bool, ◌||◌, String, ◌==◌, string_eq}

pub record Blockchain : Type 0 where
  pub id : String
  pub shard_count : ℕ
  pub url : String
  pub redis_cluster_url : String

pub record Customer : Type 0 where
  pub id : String

pub record CheckoutSession : Type 0 where
  pub id : String
  pub client_reference_id : String
  pub session_id : String
  pub customer_id : String
  pub url : String

pub record Webhook : Type 0 where
  pub id : String
  pub created_at : String
  pub is_active : ℕ
  pub url : String
  pub max_blocks : ℤ
  pub max_retries : ℤ
  pub timeout_ms : ℤ
  pub customer_id : String
  pub blockchain_id : String
  pub shard_id : ℕ

-- The unique keys: two rows that agree on one of them cannot stand in the table together.
abbrev pub sessions_clash : CheckoutSession → CheckoutSession → Bool
sessions_clash r s =
    r.id == s.id || r.client_reference_id == s.client_reference_id || r.customer_id == s.customer_id

abbrev pub customers_clash : Customer → Customer → Bool
customers_clash r s = r.id == s.id

abbrev pub webhooks_clash : Webhook → Webhook → Bool
webhooks_clash r s = r.id == s.id
