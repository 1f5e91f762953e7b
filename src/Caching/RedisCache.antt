-- ===== src/Caching/RedisCache.antt =====
-- packages/node/caching/src/core/redis.cache.ts and src/utils.ts. The Redis client and the JSON
-- coding of the values are parameters.
pub mod Laws
pub mod Memory
use block_feed_prototype.Prelude.{
  ℕ, Option, none, some, List, [], ◌∷◌, String, ◌≡◌, ◌==◌, string_eq, if◌then◌else◌, refl,
}
use Prim.Native.String.{◌++◌ as concat}
use block_feed_prototype.Caching.Types.{AsyncCache, AsyncCallbackCache}
use block_feed_prototype.Promise.{M, Result, ok, err, pure, ◌>>=◌, ◌>>◌}

-- The three calls of the client: `get`, `del`, and `set` with the expiration in milliseconds of `PX`.
pub record Redis (W : Type 0) : Type 0 where
  pub get : String → M W (Option String)
  pub del : String → M W ℕ
  pub set : String → String → Option ℕ → M W (Unit {0})

-- `JSON.stringify` and `JSON.parse`, which may throw, and gives `null` for the text `null`.
pub record Json (T : Type 0) : Type 0 where
  pub stringify : T → String
  pub parse : String → Result (Option T)

-- `strings.join(":")`
unfoldable pub make_cache_key : List String → String
make_cache_key [] = ""
make_cache_key (s ∷ []) = s
make_cache_key (s ∷ t ∷ rest) = concat s (concat ":" (make_cache_key (t ∷ rest)))

-- A namespace that is null or empty adds nothing.
unfoldable pub prefix_with_namespace : Option String → String → String
unfolding make_cache_key
prefix_with_namespace none key = key
prefix_with_namespace (some namespace) key =
    if namespace == "" then key else make_cache_key (namespace ∷ key ∷ [])

-- `await` of a value that is at hand.
abbrev settle : {W A : Type 0} → Result A → M W A
settle r w = (r, w)

module _ {W T : Type 0} (redis_client : Redis W) (json : Json T) (namespace : Option String) where
  unfoldable pub invalidate : String → M W ℕ
  invalidate key = redis_client.del (prefix_with_namespace namespace key)

  unfoldable pub get : String → M W (Option T)
  get key = do
    val ← redis_client.get (prefix_with_namespace namespace key)
    elim val [ none ↦ pure none | some text ↦ settle (json.parse text) ]

  unfoldable pub set : Option ℕ → String → T → M W (Unit {0})
  set expiration_ms key val =
      redis_client.set (prefix_with_namespace namespace key) (json.stringify val) expiration_ms

  unfoldable pub get_or_set : {P : Type 0} → Option ℕ → (P → M W T) → String → P → M W T
  get_or_set expiration_ms cb key params = do
    cached ← get key
    elim cached [
      | some found ↦ pure found
      | none ↦ do fresh ← cb params; set expiration_ms key fresh; pure fresh
    ]

-- What `createRedisCache` and its `setCallback` return.
module _ {W T : Type 0} (redis_client : Redis W) (json : Json T) (namespace : Option String) where
  abbrev pub create_redis_cache : AsyncCache W T
  create_redis_cache = record {
    get = get redis_client json namespace;
    invalidate = invalidate redis_client json namespace;
  }

  abbrev pub set_callback : {P : Type 0} → Option ℕ → (P → M W T) → AsyncCallbackCache W T P
  set_callback expiration_ms cb = record {
    get = get redis_client json namespace;
    set = set redis_client json namespace expiration_ms;
    invalidate = invalidate redis_client json namespace;
    get_or_set = get_or_set redis_client json namespace expiration_ms cb;
  }
