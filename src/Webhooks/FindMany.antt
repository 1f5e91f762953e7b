-- ===== src/Webhooks/FindMany.antt =====
-- apps/dashboard/src/server/schema/webhooks/handlers/find-many.ts. The limit is a natural number: a
-- negative one is left out.
pub mod Taking
pub mod Pages
pub mod Inactive
use block_feed_prototype.Prelude.{
  ℕ, suc, ◌+◌, Bool, true, false, not, ◌&&◌, ◌||◌, Option, none, some, List, [], ◌∷◌, ◌++◌, reverse,
  String, concat, ltb, length, ◌==◌, string_eq, nat_eq, if◌then◌else◌,
}
use block_feed_prototype.Promise.{M, pure, ◌>>=◌}
use block_feed_prototype.Db.Schema.{Webhook}
use block_feed_prototype.Graphql.Context.{Context}

-- `{ eq?: A | null }` and `{ like?: string | null }`
pub record EqFilter {ℓ} (A : Type ℓ) : Type ℓ where
  pub eq : Option A

pub record LikeFilter : Type 0 where
  pub like : Option String

pub record FiltersBody : Type 0 where
  pub blockchain : Option (EqFilter String)
  pub is_active : Option (EqFilter Bool)
  pub url : Option LikeFilter

pub record Filters : Type 0 where
  pub conjunction : Option FiltersBody

pub record Cursor : Type 0 where
  pub id : String
  pub reverse : Bool

pub record Pagination : Type 0 where
  pub limit : ℕ
  pub cursor : Option Cursor

pub record PaginationFlags : Type 0 where
  pub has_next : Bool
  pub has_prev : Bool

pub record Webhooks : Type 0 where
  pub payload : List Webhook
  pub pagination : PaginationFlags

-- How the database compares the two columns of the order, and matches a pattern of `LIKE`.
pub record Collation : Type 0 where
  pub created_lt : String → String → Bool
  pub id_lt : String → String → Bool
  pub like : String → String → Bool

-- `o?.f`
abbrev pub chain {ℓ κ} : {A : Type ℓ} {B : Type κ} → Option A → (A → Option B) → Option B
chain none f = none
chain (some a) f = f a

-- `and(…)`, which leaves out what is `undefined`.
abbrev pub passes : Option (Webhook → Bool) → Webhook → Bool
passes none r = true
passes (some test) r = test r

unfoldable pub all_of : List (Option (Webhook → Bool)) → Webhook → Bool
all_of [] r = true
all_of (test ∷ tests) r = passes test r && all_of tests r

abbrev blockchain_test : Option String → Option (Webhook → Bool)
blockchain_test none = none
blockchain_test (some id) = if not (id == "") then some (λ r. r.blockchain_id == id) else none

-- `isActive?.eq != null && isActive.eq`: a filter for inactive webhooks gives no test.
abbrev is_active_test : Option Bool → Option (Webhook → Bool)
is_active_test none = none
is_active_test (some eq) = if eq then some (λ r. r.is_active == (if eq then 1 else 0)) else none

module _ (db : Collation) where
  abbrev url_test : Option String → Option (Webhook → Bool)
  url_test none = none
  url_test (some text) =
      if not (text == "") then some (λ r. db.like r.url (concat "%" (concat text "%"))) else none

  unfoldable pub filter_tests : String → Filters → List (Option (Webhook → Bool))
  filter_tests user_id filters =
      some (λ r. r.customer_id == user_id)
      ∷ blockchain_test (chain (chain filters.conjunction (λ f. f.blockchain)) (λ f. f.eq))
      ∷ url_test (chain (chain filters.conjunction (λ f. f.url)) (λ f. f.like))
      ∷ is_active_test (chain (chain filters.conjunction (λ f. f.is_active)) (λ f. f.eq))
      ∷ []

  -- The row of the cursor, and whether the page before it is wanted.
  unfoldable pub cursor_test : Option (Webhook × Bool) → Option (Webhook → Bool)
  cursor_test none = none
  cursor_test (some (c, reverse)) =
      if reverse
      then some (λ r.
        db.created_lt c.created_at r.created_at
        || (r.created_at == c.created_at && db.id_lt c.id r.id))
      else some (λ r.
        db.created_lt r.created_at c.created_at
        || (r.created_at == c.created_at && db.id_lt r.id c.id))

  -- `[desc(createdAt), desc(id)]` and `[asc(createdAt), asc(id)]`
  unfoldable pub newest_first : Webhook → Webhook → Bool
  newest_first a b =
      db.created_lt b.created_at a.created_at
      || (b.created_at == a.created_at && db.id_lt b.id a.id)

  unfoldable pub oldest_first : Webhook → Webhook → Bool
  oldest_first a b =
      db.created_lt a.created_at b.created_at
      || (a.created_at == b.created_at && db.id_lt a.id b.id)

-- `cursor?.data.reverse ?? false`
abbrev pub is_reverse : Option (Webhook × Bool) → Bool
is_reverse none = false
is_reverse (some (c, reverse)) = reverse

abbrev pub is_none : Option (Webhook × Bool) → Bool
is_none none = true
is_none (some c) = false

-- `result.pop()`
abbrev pub pop : List Webhook → List Webhook
pop [] = []
pop (r ∷ []) = []
pop (r ∷ s ∷ rs) = r ∷ pop (s ∷ rs)

abbrev pub oriented : Bool → List Webhook → List Webhook
oriented is_reversed rs = if is_reversed then reverse rs else rs

unfoldable pub paginate : ℕ → Option (Webhook × Bool) → List Webhook → Webhooks
paginate limit cursor result =
    if ltb limit (length result)
    then record {
      payload = oriented (is_reverse cursor) (pop result);
      pagination = record { has_next = true; has_prev = not (is_none cursor) };
    }
    else record {
      payload = oriented (is_reverse cursor) result;
      pagination = record {
        has_next = if is_none cursor then false else is_reverse cursor;
        has_prev = if is_none cursor then false else not (is_reverse cursor);
      };
    }

abbrev pub with_direction : Bool → Option Webhook → Option (Webhook × Bool)
with_direction reverse none = none
with_direction reverse (some r) = some (r, reverse)

module _ {W Cluster : Type 0} (ctx : Context W Cluster) where
  unfoldable pub find_cursor : Option Cursor → M W (Option (Webhook × Bool))
  find_cursor none = pure none
  find_cursor (some c) = do
    webhook ← ctx.providers.webhook.find_first (λ r. r.customer_id == ctx.user_id && r.id == c.id)
    pure (with_direction c.reverse webhook)

module _ {W Cluster : Type 0} (ctx : Context W Cluster) (db : Collation) where
  unfoldable pub find_page : Filters → ℕ → Option (Webhook × Bool) → M W Webhooks
  find_page filters limit cursor = do
    result ←
        ctx.providers.webhook.find_page
          (all_of (filter_tests db ctx.user_id filters ++ cursor_test db cursor ∷ []))
          (if is_reverse cursor then oldest_first db else newest_first db) (limit + 1)
    pure (paginate limit cursor result)

  unfoldable pub handler : Filters → Pagination → M W Webhooks
  unfolding find_page
  handler filters pagination = do
    cursor ← find_cursor ctx pagination.cursor
    find_page filters pagination.limit cursor
