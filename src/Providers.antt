-- ===== src/Providers.antt =====
-- The caches and the clients that the providers under packages/node/providers make. The clients of the
-- libraries are parameters.
pub mod Shared
use block_feed_prototype.Prelude.{ℕ, Option, none, some, List, [], ◌∷◌, String}
use block_feed_prototype.Promise.{M, Result, ok, err, other}
use block_feed_prototype.Js.Map.{Map}
use block_feed_prototype.Caching.Types.{AsyncCache, AsyncCallbackCache, CallbackCache}
use block_feed_prototype.Caching.Lru.Defs.{Nullable, val}
use block_feed_prototype.Caching.Lru.Defs
use block_feed_prototype.Caching.RedisCache.{
  Redis, Json, make_cache_key, create_redis_cache, set_callback,
}
use block_feed_prototype.Stripe.Types.{Session}

-- What a provider returns: without an expiration time a cache to read and to invalidate, and with one
-- a cache that asks its callback for what it does not hold.
pub data ProviderCache (W T : Type 0) : Type 0 where
  plain : AsyncCache W T → ProviderCache W T
  with_callback : AsyncCallbackCache W T String → ProviderCache W T

unfoldable pub checkout_namespace : String
unfolding make_cache_key
checkout_namespace = make_cache_key ("stripe" ∷ "checkout" ∷ "session" ∷ [])

unfoldable pub users_namespace : String
unfolding make_cache_key
users_namespace = make_cache_key ("clerk" ∷ "users" ∷ [])

module _ {W : Type 0} (redis_client : Redis W) where
  -- `createCheckoutSessionCache`, by the call of Stripe that retrieves a session, which is told what
  -- to expand.
  unfoldable pub create_checkout_session_cache :
      Json Session → (String → List String → M W Session) → Option ℕ → ProviderCache W Session
  create_checkout_session_cache json retrieve none =
      plain (create_redis_cache redis_client json (some checkout_namespace))
  create_checkout_session_cache json retrieve (some expiration_ms) = with_callback (
      set_callback redis_client json (some checkout_namespace) (some expiration_ms)
        (λ session_id. retrieve session_id ("subscription" ∷ "customer" ∷ [])))

  -- `createClerkUsersCache`, by the call of Clerk that gets a user.
  unfoldable pub create_clerk_users_cache :
      {User : Type 0} → Json User → (String → M W User) → Option ℕ → ProviderCache W User
  create_clerk_users_cache json get_user none =
      plain (create_redis_cache redis_client json (some users_namespace))
  create_clerk_users_cache json get_user (some expiration_ms) =
      with_callback
        (set_callback redis_client json (some users_namespace) (some expiration_ms) get_user)

-- `createRedisClusterConnCache`, by the constructor of the client of a cluster.
unfoldable pub create_redis_cluster_conn_cache :
    {W Cluster : Type 0}
    → (W → Map String (Nullable Cluster))
    → (Map String (Nullable Cluster) → W → W)
    → (String → Cluster)
    → ℕ
    → CallbackCache W (Nullable Cluster) String
create_redis_cluster_conn_cache view replace new_cluster capacity =
    Defs.set_callback view replace capacity (λ url. val (new_cluster url))

-- The default of its parameter.
abbrev pub default_capacity : ℕ
default_capacity = 100

-- The constructor of `redis.Provider`, by that of its client.
unfoldable pub new_redis_provider :
    {Client : Type 0} → (String → Client) → Option String → Result Client
new_redis_provider new_redis none = err (other "REDIS_URL is not defined")
new_redis_provider new_redis (some url) = ok (new_redis url)

-- The constructor of `clerk.Provider`: the key of the token's signature, which stands in a JSON text.
unfoldable pub new_clerk_provider :
    {Env : Type 0}
    → (String → Result (Option String))
    → (Option String → Result Env)
    → String
    → Result Env
new_clerk_provider parse_jwt_key with_key raw = elim (parse_jwt_key raw) [
  | err e ↦ err e
  | ok none ↦ err (other "failed to parse JWT_KEY from env")
  | ok (some key) ↦ with_key (some key)
]
