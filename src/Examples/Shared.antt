-- ===== src/Examples/Shared.antt =====
-- The caches of two processes on one Redis in memory, and a query of a user who has not subscribed.
use block_feed_prototype.Prelude.{◌≡◌, refl, none, some, List, [], ◌∷◌, String, string_eq}
use block_feed_prototype.Promise.{M, ok}
use block_feed_prototype.Caching.Types.{AsyncCache, AsyncCallbackCache}
use block_feed_prototype.Caching.RedisCache.{
  Json, get, invalidate, get_or_set, create_redis_cache, set_callback,
}
use block_feed_prototype.Caching.RedisCache
use block_feed_prototype.Caching.RedisCache.Memory.{Store, memory, contents, memory-IsStore}
use block_feed_prototype.Js.Map
use block_feed_prototype.Stripe.Types.{Session, complete, expired}
use block_feed_prototype.Providers.{
  checkout_namespace, create_checkout_session_cache, plain, with_callback,
}
use block_feed_prototype.Providers.Shared.{invalidated_is_retrieved}
use block_feed_prototype.Examples.World.{session}

abbrev json : Json Session
json = record { stringify = λ s. "expired"; parse = λ t. ok (some (session expired)) }

abbrev retrieve : String → List String → M Store Session
retrieve id expand w = (ok (session complete), w)

abbrev consumer : AsyncCache Store Session
consumer = create_redis_cache memory json (some checkout_namespace)

abbrev api : AsyncCallbackCache Store Session String
api =
    set_callback memory json (some checkout_namespace) (some 1000)
      (λ id. retrieve id ("subscription" ∷ "customer" ∷ []))

consumer_made : create_checkout_session_cache memory json retrieve none ≡ plain consumer
unfolding create_checkout_session_cache
consumer_made = refl

api_made : create_checkout_session_cache memory json retrieve (some 1000) ≡ with_callback api
unfolding create_checkout_session_cache
api_made = refl

abbrev cached : Store
cached = ("stripe:checkout:session:ann", "expired") ∷ []

invalidated : (consumer.invalidate "ann" cached).0 ≡ ok 1
unfolding invalidate
invalidated = refl

then_complete :
    (api.get_or_set "ann" "cs1" (consumer.invalidate "ann" cached).1).0 ≡ ok (session complete)
unfolding invalidate get_or_set get RedisCache.set RedisCache.prefix_with_namespace
    checkout_namespace RedisCache.make_cache_key Map.delete Map.get string_eq
then_complete = refl

invalidated_is_retrieved_example :
    (w' : Store) × ((retrieve "cs1" ("subscription" ∷ "customer" ∷ []) w').0
      ≡ ok (session complete))
invalidated_is_retrieved_example =
    invalidated_is_retrieved memory contents memory-IsStore json retrieve 1000 consumer api
      consumer_made api_made "ann" "cs1" cached 1 (session complete) invalidated then_complete
