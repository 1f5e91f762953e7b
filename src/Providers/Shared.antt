-- ===== src/Providers/Shared.antt =====
-- The caches that several processes open on one Redis: the API with a callback, the webhook consumer and
-- the plugin for tokens without one.
use text.Mathlib.TextLemmas.{append_assoc, append_inj}
use block_feed_prototype.Prelude.{
  ℕ, ◌≡◌, ◌≢◌, refl, sym, ◌∙◌, false, Option, none, some, List, [], ◌∷◌, String, concat, ◌==◌,
  string_eq, arith,
}
use block_feed_prototype.Promise.{M, ok, Keeps}
use block_feed_prototype.Caching.Types.{AsyncCache, AsyncCallbackCache}
use block_feed_prototype.Caching.RedisCache.{Redis, Json, make_cache_key, prefix_with_namespace}
use block_feed_prototype.Caching.RedisCache.Laws.{
  IsStore, get_or_set-other, get_or_set_of_invalidate,
}
use block_feed_prototype.Stripe.Types.{Session}
use block_feed_prototype.Providers.{
  plain, with_callback, checkout_namespace, users_namespace, create_checkout_session_cache,
  create_clerk_users_cache,
}

differs : (s t : String) → (s == t) ≡ false → s ≢ t
differs s t h e = ground arith

-- No key of the one cache is a key of the other.
keys_apart :
    (j k : String)
    → prefix_with_namespace (some checkout_namespace) j
      ≢ prefix_with_namespace (some users_namespace) k
unfolding prefix_with_namespace checkout_namespace users_namespace make_cache_key string_eq
keys_apart j k e =
    let same =
      sym (append_assoc "stripe:" "checkout:session" (concat ":" j))
      ∙ e
      ∙ append_assoc "clerk:u" "sers" (concat ":" k) in
    absurd (differs "stripe:" "clerk:u" refl (append_inj same refl).0)

plain-inj : {W T : Type 0} {c d : AsyncCache W T} → plain c ≡ plain d → c ≡ d
plain-inj e = cc

pub with_callback-inj :
    {W T : Type 0} {c d : AsyncCallbackCache W T String} → with_callback c ≡ with_callback d → c ≡ d
with_callback-inj e = cc

module _ {W : Type 0} (redis : Redis W) (store : W → String → Option String)
    (lawful : IsStore redis store) (json : Json Session)
    (retrieve : String → List String → M W Session) (ms : ℕ) (consumer : AsyncCache W Session)
    (api : AsyncCallbackCache W Session String)
    (consumer_made : create_checkout_session_cache redis json retrieve none ≡ plain consumer)
    (api_made : create_checkout_session_cache redis json retrieve (some ms)
      ≡ with_callback api) where
  -- After the consumer has invalidated the session of a user, the next session that the API's cache
  -- returns for that user comes from Stripe, with subscription and customer expanded.
  pub invalidated_is_retrieved :
      (user_id session_id : String) (w : W) (n : ℕ) (s : Session)
      → (consumer.invalidate user_id w).0 ≡ ok n
      → (api.get_or_set user_id session_id (consumer.invalidate user_id w).1).0 ≡ ok s
      → (w' : W) × ((retrieve session_id ("subscription" ∷ "customer" ∷ []) w').0 ≡ ok s)
  unfolding create_checkout_session_cache
  invalidated_is_retrieved user_id session_id w n s deleted got =
      let consumer_is = plain-inj consumer_made in
      let api_is = with_callback-inj api_made in
      get_or_set_of_invalidate redis store lawful json (some checkout_namespace) (some ms)
        (λ id. retrieve id ("subscription" ∷ "customer" ∷ [])) user_id session_id w n s
        (rw (← consumer_is) at deleted) (rw (← consumer_is, ← api_is) at got)

module _ {W User : Type 0} (redis : Redis W) (store : W → String → Option String)
    (lawful : IsStore redis store) (json : Json User) (get_user : String → M W User) (ms : ℕ)
    (users : AsyncCallbackCache W User String)
    (users_made : create_clerk_users_cache redis json get_user (some ms)
      ≡ with_callback users) where
  -- A user that the cache of users gets and keeps changes no entry of the cache of checkout sessions,
  -- if the call of Clerk does not.
  pub users_leave_sessions :
      (user_id params : String) (w : W) (u : User) (session_user : String)
      → Keeps store (get_user params)
      → (users.get_or_set user_id params w).0 ≡ ok u
      → store
          (users.get_or_set user_id params w).1
          (prefix_with_namespace (some checkout_namespace) session_user)
        ≡ store w (prefix_with_namespace (some checkout_namespace) session_user)
  unfolding create_clerk_users_cache
  users_leave_sessions user_id params w u session_user keeps got =
      let users_is = with_callback-inj users_made in
      rw (← users_is) (
        get_or_set-other redis store lawful json (some users_namespace) (some ms) get_user user_id
          params keeps w u (prefix_with_namespace (some checkout_namespace) session_user)
          (rw (← users_is) at got) (keys_apart session_user user_id))
