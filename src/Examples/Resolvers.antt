-- ===== src/Examples/Resolvers.antt =====
-- The resolvers and the authentication, for users with and without a subscription.
use block_feed_prototype.Prelude.{
  ℕ, ◌≡◌, refl, true, false, none, some, List, [], ◌∷◌, String, ◌==◌, string_eq, pos, arith, All,
}
use block_feed_prototype.Promise.{ok, other, Post, Fails}
use block_feed_prototype.Caching.Types.{AsyncCache}
use block_feed_prototype.Db.Schema.{Customer, customers_clash}
use block_feed_prototype.Db.Memory.{memory, memory-IsTable, find}
use block_feed_prototype.Stripe.Types.{complete}
use block_feed_prototype.Graphql.Context.{Context, ClerkUser}
use block_feed_prototype.Graphql.RequireAuth.{
  Authorization, jwt_payload, require_auth, Admitted, require_auth-Admitted,
}
use block_feed_prototype.Webhooks.Inputs.{Zod, CreateData, UpdateData}
use block_feed_prototype.Webhooks.FindMany.{handler}
use block_feed_prototype.Webhooks.FindMany.Inactive.{filters_for, inactive_filter_ignored}
use block_feed_prototype.Webhooks.Resolvers.{
  webhook_create, webhook_update, Surroundings, remove_request, resolve,
}
use block_feed_prototype.Webhooks.Guarded.{resolve_unknown}
use block_feed_prototype.Webhooks.Limits.{
  IsWithinLimits, webhook_update-IsWithinLimits, webhook_create-IsWithinLimits,
}
use block_feed_prototype.Examples.World.{
  World, context, start, hook, webhooks_of, sessions_of_world, blockchains_of,
  webhook_table-IsTable, session_table-IsTable, blockchain_table-IsTable, first_of-Keeps,
  first_of_range,
}

abbrev zod : Zod
zod = record { is_url = λ s. true; is_uuid = λ s. true; length = λ s. 10 }

hook-IsWithinLimits :
    (id user_id created_at : String) (is_active : ℕ)
    → IsWithinLimits zod (hook id user_id created_at is_active)
hook-IsWithinLimits id user_id created_at is_active = record {
  is_url = refl;
  url_length = (omega arith, omega arith);
  max_blocks = (omega arith, omega arith);
  max_retries = (omega arith, omega arith);
  timeout_ms = (omega arith, omega arith);
  blockchain_length = omega arith;
}

start-IsWithinLimits : All (IsWithinLimits zod) (webhooks_of start)
start-IsWithinLimits = (
  hook-IsWithinLimits "w1" "ann" "1" 0,
  (
    hook-IsWithinLimits "w2" "ann" "2" 0,
    (hook-IsWithinLimits "w3" "ann" "3" 1, (hook-IsWithinLimits "w4" "bob" "2" 0, tt)),
  ),
)

abbrev changes : UpdateData
changes = record { url = none; max_blocks = some (pos 10); max_retries = none; timeout_ms = none }

webhook_update-IsWithinLimits_example :
    Post
      (webhook_update (context complete) zod (other "invalid") "w2" changes start)
      (λ n w'. All (IsWithinLimits zod) (webhooks_of w'))
webhook_update-IsWithinLimits_example =
    webhook_update-IsWithinLimits (context complete) zod (other "invalid") webhooks_of
      (record { customer = λ id w. refl; subscription = λ id w. refl }) (λ key id w. refl)
      (λ p w. refl) webhook_table-IsTable "w2" changes start start-IsWithinLimits

abbrev wanted : CreateData
wanted = record {
  url = "https://new";
  max_blocks = pos 1;
  max_retries = pos 0;
  timeout_ms = pos 100;
  blockchain_id = "eth";
}

webhook_create-IsWithinLimits_example :
    Post
      (webhook_create (context complete) zod (other "invalid") "4" wanted start)
      (λ uuid w'. All (IsWithinLimits zod) (webhooks_of w'))
webhook_create-IsWithinLimits_example =
    webhook_create-IsWithinLimits (context complete) zod (other "invalid") webhooks_of
      (record { customer = λ id w. refl; subscription = λ id w. refl }) (λ key id w. refl)
      (λ p w. refl) webhook_table-IsTable blockchains_of blockchain_table-IsTable.find_first_value
      (λ p w. refl)
      (record { uuid_keeps = λ w. refl; int_keeps = first_of-Keeps; int_range = first_of_range })
      "4" wanted start start-IsWithinLimits

abbrev eve : Context World String
eve = record (context complete) { user_id = "eve" }

abbrev around : Surroundings World String
around = record {
  collation = record { created_lt = λ s t. false; id_lt = λ s t. false; like = λ s t. true };
  now = "4";
  run_script = λ c k p ids w. (ok tt, w);
  decimal = λ n. "0";
}

resolve_unknown_example :
    Fails (resolve eve zod (other "invalid") around (remove_request ("w2" ∷ [])) start)
    × (webhooks_of (resolve eve zod (other "invalid") around (remove_request ("w2" ∷ [])) start).1
        ≡ webhooks_of start)
unfolding string_eq find
resolve_unknown_example =
    resolve_unknown eve zod (other "invalid") webhooks_of
      (record { customer = λ id w. refl; subscription = λ id w. refl }) (λ key id w. refl)
      (λ p w. refl) sessions_of_world session_table-IsTable around (remove_request ("w2" ∷ []))
      start none (refl, (refl, tt)) refl

inactive_filter_ignored_example :
    handler
      (context complete)
      (record { created_lt = λ s t. false; id_lt = λ s t. false; like = λ s t. true })
      (filters_for none none (some (record { eq = some false })))
      (record { limit = 2; cursor = none })
      start
    ≡ handler
        (context complete)
        (record { created_lt = λ s t. false; id_lt = λ s t. false; like = λ s t. true })
        (filters_for none none none)
        (record { limit = 2; cursor = none })
        start
inactive_filter_ignored_example =
    inactive_filter_ignored (context complete)
      (record { created_lt = λ s t. false; id_lt = λ s t. false; like = λ s t. true }) none none
      (record { limit = 2; cursor = none }) start

abbrev customers_of : List Customer → List Customer
customers_of w = w

abbrev no_users : AsyncCache (List Customer) ClerkUser
no_users = record { get = λ key w. (ok none, w); invalidate = λ key w. (ok 0, w) }

-- The token is the name of the user.
abbrev auth : Authorization (List Customer)
auth = record {
  is_bearer = λ s. s == "bearer ann";
  second_word = λ s. some "ann";
  verify = λ token w. (ok (jwt_payload (some token)), w);
}

require_auth-Admitted_example :
    Post
      (require_auth auth no_users
        (memory customers_of (λ rows w. rows) customers_clash)
        (some "bearer ann")
        [])
      (Admitted auth no_users
        (memory customers_of (λ rows w. rows) customers_clash)
        customers_of
        (some "bearer ann")
        [])
require_auth-Admitted_example =
    require_auth-Admitted auth no_users (memory customers_of (λ rows w. rows) customers_clash)
      customers_of (memory-IsTable customers_of (λ rows w. rows) customers_clash (λ rows w. refl))
      (λ key w. refl) (λ token w. refl) (some "bearer ann") []
