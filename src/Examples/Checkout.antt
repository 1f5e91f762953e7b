-- ===== src/Examples/Checkout.antt =====
-- Checkouts of a user whose session has expired.
use block_feed_prototype.Prelude.{
  ◌≡◌, refl, ◌⊎◌, true, false, Option, none, some, List, [], ◌∷◌, String, string_eq, All, arith,
  inl,
}
use block_feed_prototype.Promise.{M, ok, OnOk, Post}
use block_feed_prototype.Db.Schema.{CheckoutSession, sessions_clash}
use block_feed_prototype.Db.Table.{Table, IsTable, In}
use block_feed_prototype.Caching.Types.{AsyncCallbackCache}
use block_feed_prototype.Caching.RedisCache.{
  Redis, Json, prefix_with_namespace, make_cache_key, set_callback,
}
use block_feed_prototype.Caching.RedisCache.Laws.{IsStore}
use block_feed_prototype.Graphql.Context.{Context}
use block_feed_prototype.Js.Map
use block_feed_prototype.Providers.{
  checkout_namespace, create_checkout_session_cache, with_callback,
}
use block_feed_prototype.Stripe.Types.{Session, expired, complete}
use block_feed_prototype.Checkout.Resolve.{Resolved, empty, renewal, resolve_checkout_session}
use block_feed_prototype.Checkout.Transaction.{NewSession, record_session}
use block_feed_prototype.Checkout.Settled.{own, IsSettled}
use block_feed_prototype.Checkout.Serial.{record_sessions, record_sessions_agree}
use block_feed_prototype.Checkout.Stale.{locked_returns_old, stale_renewal}
use block_feed_prototype.Examples.World.{
  World, context, start, session, ann_session, session_table, session_table-IsTable,
  sessions_of_world,
}

abbrev resolved : Resolved
resolved = record { client_reference_id = some "r1"; stripe_customer_id = some "cus"; url = none }

abbrev new : String → String → NewSession
new reference url = record {
  customer_id = "ann";
  client_reference_id = reference;
  session_id = "cs";
  url = url;
}

record_sessions_agree_example :
    Post
      (record_sessions session_table
        (context expired).crypto.random_uuid
        resolved
        (new "r3" "u3" ∷ new "r4" "u4" ∷ [])
        start)
      (λ urls w'.
        (url : String) × All (λ u. u ≡ url) urls
        × IsSettled "ann" (some "r1") url (sessions_of_world w'))
unfolding string_eq
record_sessions_agree_example =
    record_sessions_agree session_table (context expired).crypto.random_uuid sessions_of_world
      session_table-IsTable (λ w. refl) (λ p w. refl) "ann" resolved (new "r3" "u3")
      (new "r4" "u4" ∷ []) start (omega arith) (λ e. e, (λ e. e, tt))
      ((refl, refl), ((refl, refl), tt))

-- The same table, whose rows another transaction has locked.
abbrev locked_table : Table World CheckoutSession
locked_table = record session_table { select_for_update = λ p w. (ok [], w) }

locked_table-IsTable : IsTable locked_table sessions_of_world sessions_clash
locked_table-IsTable = record {
  find_first_keeps = session_table-IsTable.find_first_keeps;
  find_first_value = session_table-IsTable.find_first_value;
  find_many_keeps = session_table-IsTable.find_many_keeps;
  find_many_value = session_table-IsTable.find_many_value;
  find_page_keeps = session_table-IsTable.find_page_keeps;
  find_page_value = session_table-IsTable.find_page_value;
  select_for_update_keeps = λ p w. refl;
  select_for_update_value = λ p w. tt;
  insert_value = session_table-IsTable.insert_value;
  insert_ignore_value = session_table-IsTable.insert_ignore_value;
  update_value = session_table-IsTable.update_value;
  update_failed = session_table-IsTable.update_failed;
  delete_value = session_table-IsTable.delete_value;
}

locked_returns_old_example :
    Post
      (record_session locked_table
        (context expired).crypto.random_uuid
        resolved
        (new "r3" "u3")
        start)
      (λ u w'. (u ≡ "u1") × (sessions_of_world w' ≡ sessions_of_world start))
unfolding string_eq
locked_returns_old_example =
    locked_returns_old locked_table (context expired).crypto.random_uuid sessions_of_world
      locked_table-IsTable (λ w. refl) resolved "r1" (new "r3" "u3") ann_session start refl refl
      (omega arith) (inl refl) refl

-- Redis beside the tables.
abbrev redis : Redis World
redis = record {
  get = λ k w. (ok (Map.get k w.entries), w);
  del = λ k w. (ok 1, record w { entries = Map.delete k w.entries });
  set = λ k v px w. (ok tt, record w { entries = Map.set k v w.entries });
}

abbrev held_by : World → String → Option String
held_by w k = Map.get k w.entries

redis-IsStore : IsStore redis held_by
redis-IsStore = record {
  get_keeps = λ k w. refl;
  get_value = λ k w. refl;
  set_value = λ k v px j w. ground (arith, Map.get-set j k v w.entries);
  del_value = λ k j w. ground (arith, Map.get-delete j k w.entries);
}

abbrev json : Json Session
json = record { stringify = λ s. "expired"; parse = λ t. ok (some (session expired)) }

abbrev retrieve : String → List String → M World Session
retrieve id expand w = (ok (session complete), w)

abbrev api : AsyncCallbackCache World Session String
api =
    set_callback redis json (some checkout_namespace) (some 1000)
      (λ id. retrieve id ("subscription" ∷ "customer" ∷ []))

abbrev cached : Context World String
cached = record (context complete) {
  caches = record (context complete).caches { stripe_checkout_sess = api };
}

api_made :
    create_checkout_session_cache redis json retrieve (some 1000)
    ≡ with_callback cached.caches.stripe_checkout_sess
unfolding create_checkout_session_cache
api_made = refl

abbrev stale : World
stale = record start { entries = ("stripe:checkout:session:ann", "expired") ∷ [] }

stale_entry : held_by stale (prefix_with_namespace (some checkout_namespace) "ann") ≡ some "expired"
unfolding prefix_with_namespace checkout_namespace make_cache_key Map.get string_eq
stale_entry = refl

stale_renewal_example : OnOk (resolve_checkout_session cached stale).0 (λ r.
    ((r ≡ empty) × All (λ row. own "ann" row ≡ false) (sessions_of_world stale))
    ⊎ ((row : CheckoutSession) × In row (sessions_of_world stale)
        × (own "ann" row ≡ true)
        × (r ≡ renewal row (some "cus"))))
stale_renewal_example =
    stale_renewal cached redis held_by redis-IsStore json retrieve 1000 api_made sessions_of_world
      session_table-IsTable (λ p w. refl) "expired" (session expired) stale stale_entry refl refl
