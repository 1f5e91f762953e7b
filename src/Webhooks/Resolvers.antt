-- ===== src/Webhooks/Resolvers.antt =====
-- apps/dashboard/src/server/schema/webhooks/resolvers.ts: each resolver validates its arguments, asks for
-- a subscription, and runs its handler.
use block_feed_prototype.Prelude.{ℕ, Bool, true, none, some, List, String, if◌then◌else◌}
use block_feed_prototype.Promise.{M, Failure, throw, ◌>>=◌}
use block_feed_prototype.Db.Schema.{Webhook}
use block_feed_prototype.Graphql.Context.{Context, require_subscription}
use block_feed_prototype.Webhooks.Inputs.{
  Zod, CreateData, UpdateData, valid_create, valid_update, valid_ids,
}
use block_feed_prototype.Webhooks.FindOne
use block_feed_prototype.Webhooks.FindMany
use block_feed_prototype.Webhooks.FindMany.{Filters, Pagination, Webhooks, Collation}
use block_feed_prototype.Webhooks.Create
use block_feed_prototype.Webhooks.Update
use block_feed_prototype.Webhooks.Remove
use block_feed_prototype.Webhooks.Activate

-- `webhooks` takes a cursor whose identifier is a UUID.
abbrev pub valid_pagination : Zod → Pagination → Bool
valid_pagination zod pagination = elim pagination.cursor [ none ↦ true | some c ↦ zod.is_uuid c.id ]

-- `invalid` is the error of the validation.
module _ {W Cluster : Type 0} (ctx : Context W Cluster) (zod : Zod) (invalid : Failure) where
  unfoldable pub webhook : String → M W Webhook
  webhook id =
      if zod.is_uuid id
      then (do subscription ← require_subscription ctx; FindOne.handler ctx id)
      else throw invalid

  unfoldable pub webhooks : Collation → Filters → Pagination → M W Webhooks
  webhooks db filters pagination =
      if valid_pagination zod pagination
      then (do subscription ← require_subscription ctx; FindMany.handler ctx db filters pagination)
      else throw invalid

  unfoldable pub webhook_create : String → CreateData → M W String
  webhook_create now d =
      if valid_create zod d
      then (do subscription ← require_subscription ctx; Create.handler ctx now d)
      else throw invalid

  unfoldable pub webhook_update : String → UpdateData → M W ℕ
  webhook_update id d =
      if valid_update zod id d
      then (do subscription ← require_subscription ctx; Update.handler ctx id d)
      else throw invalid

  unfoldable pub webhook_remove : List String → M W ℕ
  webhook_remove ids =
      if valid_ids zod ids
      then (do subscription ← require_subscription ctx; Remove.handler ctx ids)
      else throw invalid

  unfoldable pub webhook_activate :
      (Cluster → String → String → List String → M W (Unit {0}))
      → (ℕ → String)
      → List String
      → M W ℕ
  webhook_activate run_script decimal ids =
      if valid_ids zod ids
      then (do subscription ← require_subscription ctx; Activate.handler ctx run_script decimal ids)
      else throw invalid

-- The fields of the interface, with their arguments.
pub data Request : Type 0 where
  webhook_request : String → Request
  webhooks_request : Filters → Pagination → Request
  create_request : CreateData → Request
  update_request : String → UpdateData → Request
  remove_request : List String → Request
  activate_request : List String → Request

-- The type of a field.
abbrev pub Answer : Request → Type 0
Answer (webhook_request id) = Webhook
Answer (webhooks_request filters pagination) = Webhooks
Answer (create_request d) = String
Answer (update_request id d) = ℕ
Answer (remove_request ids) = ℕ
Answer (activate_request ids) = ℕ

-- `validate: { schema }` of the field.
abbrev pub is_valid : Zod → Request → Bool
is_valid zod (webhook_request id) = zod.is_uuid id
is_valid zod (webhooks_request filters pagination) = valid_pagination zod pagination
is_valid zod (create_request d) = valid_create zod d
is_valid zod (update_request id d) = valid_update zod id d
is_valid zod (remove_request ids) = valid_ids zod ids
is_valid zod (activate_request ids) = valid_ids zod ids

-- What the resolvers take from elsewhere: the order of the database, the time, the script of a
-- connection, and how a number is printed.
pub record Surroundings (W Cluster : Type 0) : Type 0 where
  pub collation : Collation
  pub now : String
  pub run_script : Cluster → String → String → List String → M W (Unit {0})
  pub decimal : ℕ → String

-- The resolver of each field.
unfoldable pub resolve :
    {W Cluster : Type 0}
    → Context W Cluster
    → Zod
    → Failure
    → Surroundings W Cluster
    → (q : Request) → M W (Answer q)
unfolding webhook webhooks webhook_create webhook_update webhook_remove webhook_activate
resolve ctx zod invalid around (webhook_request id) = webhook ctx zod invalid id
resolve ctx zod invalid around (webhooks_request filters pagination) =
    webhooks ctx zod invalid around.collation filters pagination
resolve ctx zod invalid around (create_request d) = webhook_create ctx zod invalid around.now d
resolve ctx zod invalid around (update_request id d) = webhook_update ctx zod invalid id d
resolve ctx zod invalid around (remove_request ids) = webhook_remove ctx zod invalid ids
resolve ctx zod invalid around (activate_request ids) =
    webhook_activate ctx zod invalid around.run_script around.decimal ids
