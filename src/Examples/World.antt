-- ===== src/Examples/World.antt =====
-- A database in memory with two users, and a context whose services live in it.
use block_feed_prototype.Prelude.{
  ℕ, ◌≤◌, ◌<◌, arith, if◌then◌else◌, refl, Bool, false, none, some, List, [], ◌∷◌, map, String,
  string_eq, ltb, keep, pos,
}
use block_feed_prototype.Promise.{M, OnOk, Keeps, ok, err, other}
use block_feed_prototype.Caching.Types.{AsyncCallbackCache, CallbackCache}
use block_feed_prototype.Caching.Lru.Defs.{Nullable, undefined, val}
use block_feed_prototype.Db.Schema.{
  Blockchain, CheckoutSession, Webhook, webhooks_clash, sessions_clash,
}
use block_feed_prototype.Db.Table.{Table, IsTable}
use block_feed_prototype.Db.Memory.{memory, memory-IsTable}
use block_feed_prototype.Stripe.Types.{
  Client, expanded, id_of, Customer, Subscription, active, Session, SessionStatus, complete,
}
use block_feed_prototype.Caching.RedisCache.Memory.{Store}
use block_feed_prototype.Graphql.Context.{Context, ClerkUser}

pub record World : Type 0 where
  pub webhooks : List Webhook
  pub sessions : List CheckoutSession
  pub blockchains : List Blockchain
  pub entries : Store

abbrev pub put_webhooks : List Webhook → World → World
put_webhooks rows w = record w { webhooks = rows }

abbrev pub put_sessions : List CheckoutSession → World → World
put_sessions rows w = record w { sessions = rows }

abbrev pub put_blockchains : List Blockchain → World → World
put_blockchains rows w = record w { blockchains = rows }

abbrev never : Blockchain → Blockchain → Bool
never a b = false

abbrev pub webhooks_of : World → List Webhook
webhooks_of w = w.webhooks

abbrev pub sessions_of_world : World → List CheckoutSession
sessions_of_world w = w.sessions

abbrev pub blockchains_of : World → List Blockchain
blockchains_of w = w.blockchains

abbrev pub webhook_table : Table World Webhook
webhook_table = memory webhooks_of put_webhooks webhooks_clash

abbrev pub session_table : Table World CheckoutSession
session_table = memory sessions_of_world put_sessions sessions_clash

abbrev pub blockchain_table : Table World Blockchain
blockchain_table = memory blockchains_of put_blockchains never

pub webhook_table-IsTable : IsTable webhook_table webhooks_of webhooks_clash
webhook_table-IsTable = memory-IsTable webhooks_of put_webhooks webhooks_clash (λ rows w. refl)

pub session_table-IsTable : IsTable session_table sessions_of_world sessions_clash
session_table-IsTable =
    memory-IsTable sessions_of_world put_sessions sessions_clash (λ rows w. refl)

pub blockchain_table-IsTable : IsTable blockchain_table blockchains_of never
blockchain_table-IsTable = memory-IsTable blockchains_of put_blockchains never (λ rows w. refl)

abbrev pub eth : Blockchain
eth = record { id = "eth"; shard_count = 2; url = "https://eth"; redis_cluster_url = "redis://a" }

abbrev pub hook : String → String → String → ℕ → Webhook
hook id user created_at is_active = record {
  id = id;
  created_at = created_at;
  is_active = is_active;
  url = "https://example.com";
  max_blocks = pos 1;
  max_retries = pos 3;
  timeout_ms = pos 500;
  customer_id = user;
  blockchain_id = "eth";
  shard_id = 0;
}

abbrev pub ann_session : CheckoutSession
ann_session = record {
  id = "1";
  client_reference_id = "r1";
  session_id = "cs1";
  customer_id = "ann";
  url = "u1";
}

abbrev pub bob_session : CheckoutSession
bob_session = record {
  id = "2";
  client_reference_id = "r2";
  session_id = "cs2";
  customer_id = "bob";
  url = "u2";
}

abbrev pub start : World
start = record {
  webhooks =
      hook "w1" "ann" "1" 0
      ∷ hook "w2" "ann" "2" 0
      ∷ hook "w3" "ann" "3" 1
      ∷ hook "w4" "bob" "2" 0
      ∷ [];
  sessions = ann_session ∷ bob_session ∷ [];
  blockchains = eth ∷ [];
  entries = [];
}

abbrev pub cus : Customer
cus = record { id = "cus"; deleted = none }

abbrev pub sub : Subscription
sub = record {
  id = "sub";
  status = active;
  customer = id_of "cus";
  metadata = record { user_id = some "ann" };
}

abbrev pub session : SessionStatus → Session
session status = record {
  id = "cs1";
  status = status;
  customer = some (expanded cus);
  subscription = some (expanded sub);
  url = some "u1";
}

abbrev pub stripe : Client World
stripe = record {
  retrieve_subscription = λ id w. (ok sub, w);
  retrieve_customer = λ id w. (ok cus, w);
  retrieve_session = λ id w. (ok (session complete), w);
  create_session = λ params w. (ok (session complete), w);
  list_subscriptions = λ id n w. (ok (sub ∷ []), w);
  create_portal_session = λ id url w. (ok url, w);
}

abbrev pub checkout_cache : SessionStatus → AsyncCallbackCache World Session String
checkout_cache status = record {
  get = λ key w. (ok (some (session status)), w);
  set = λ key s w. (ok tt, w);
  invalidate = λ key w. (ok 1, w);
  get_or_set = λ key id w. (ok (session status), w);
}

abbrev clerk_cache : AsyncCallbackCache World ClerkUser String
clerk_cache = record {
  get = λ key w. (ok none, w);
  set = λ key u w. (ok tt, w);
  invalidate = λ key w. (ok 0, w);
  get_or_set = λ key id w. (ok (record { primary_email_address = some "ann@example.com" }), w);
}

abbrev conn_cache : CallbackCache World (Nullable String) String
conn_cache = record {
  get = λ key w. (undefined, w);
  set = λ key c w. w;
  invalidate = λ key w. (0, w);
  get_or_set = λ key url w. (val url, w);
}

abbrev pub with_blockchain : Webhook → Webhook × Blockchain
with_blockchain r = (r, eth)

-- Draws the lower bound, and fails on an empty range.
abbrev pub first_of : ℕ → ℕ → M World ℕ
first_of lo hi w = if ltb lo hi then (ok lo, w) else (err (other "empty range"), w)

pub first_of_range : (lo hi : ℕ) (w : World) → OnOk (first_of lo hi w).0 (λ n. (lo ≤ n) × (n < hi))
first_of_range lo hi w = ground arith

pub first_of-Keeps : (lo hi : ℕ) → Keeps webhooks_of (first_of lo hi)
first_of-Keeps lo hi w = ground arith

abbrev pub context : SessionStatus → Context World String
context status = record {
  providers = record {
    stripe = stripe;
    blockchain = blockchain_table;
    checkout_session = session_table;
    webhook = webhook_table;
    webhook_with_blockchain = λ p w. (ok (map with_blockchain (keep p w.webhooks)), w);
  };
  caches = record {
    stripe_checkout_sess = checkout_cache status;
    clerk_user = clerk_cache;
    redis_cluster_conn = conn_cache;
  };
  env = record {
    stripe_price_id = "price";
    stripe_checkout_success_url = "success";
    stripe_checkout_cancel_url = "cancel";
    stripe_billing_portal_return_url = "return";
    stripe_customer_portal_url = "portal";
  };
  crypto = record { random_uuid = λ w. (ok "w5", w); random_int = first_of };
  user_id = "ann";
}
