-- ===== src/Examples/Pages.antt =====
-- The pages of a user with three webhooks, read from the middle.
use block_feed_prototype.Prelude.{
  ◌≡◌, refl, ◌-◌, Bool, true, false, none, some, List, [], ◌∷◌, String, ◌==◌, string_eq, nat_eq,
  ltb, take, drop, if◌then◌else◌, inl, inr, arith, eq_refl, ◌≢◌, All, in_array, ap,
}
use block_feed_prototype.Promise.{Post}
use block_feed_prototype.Db.Schema.{Webhook}
use block_feed_prototype.Db.Table.{In, Distinct, Arranges}
use block_feed_prototype.Stripe.Types.{complete}
use block_feed_prototype.Webhooks.FindMany.{
  Filters, Collation, newest_first, filter_tests, all_of, handler,
}
use block_feed_prototype.Webhooks.FindMany.Pages.{
  IsStrict, matching, find_many_next_page, find_many_prev_page,
}
use block_feed_prototype.Examples.World.{hook, context, start, webhooks_of, webhook_table-IsTable}

-- The order of three texts that stand for times, and of the identifiers.
abbrev pub earlier : String → String → Bool
earlier s t =
    if s == t
    then false
    else if s == "1"
    then in_array t ("2" ∷ "3" ∷ [])
    else if s == "2"
    then t == "3"
    else false

abbrev pub db : Collation
db = record { created_lt = earlier; id_lt = λ s t. false; like = λ s t. true }

abbrev pub no_filters : Filters
no_filters = record { conjunction = none }

pub db-IsStrict : IsStrict db
unfolding in_array
db-IsStrict = record { created = λ t. ground (arith, eq_refl t); id = λ s. refl }

fresh : (r : Webhook) (rows : List Webhook) → All (λ s. r.id ≢ s.id) rows → ¬ In r rows
fresh r [] h i = i
fresh r (s ∷ rows) h (inl e) = h.0 (ap (λ (x : Webhook). x.id) e)
fresh r (s ∷ rows) h (inr i) = fresh r rows h.1 i

pub differs : (s t : String) → (s == t) ≡ false → s ≢ t
differs s t h e = ground arith

pub distinct : Distinct start.webhooks
unfolding string_eq
distinct = (
  fresh (hook "w1" "ann" "1" 0)
      (hook "w2" "ann" "2" 0 ∷ hook "w3" "ann" "3" 1 ∷ hook "w4" "bob" "2" 0 ∷ [])
      (differs "w1" "w2" refl, (differs "w1" "w3" refl, (differs "w1" "w4" refl, tt))),
  (
    fresh (hook "w2" "ann" "2" 0) (hook "w3" "ann" "3" 1 ∷ hook "w4" "bob" "2" 0 ∷ [])
        (differs "w2" "w3" refl, (differs "w2" "w4" refl, tt)),
    (
      fresh (hook "w3" "ann" "3" 1) (hook "w4" "bob" "2" 0 ∷ []) (differs "w3" "w4" refl, tt),
      (λ i. i, tt),
    ),
  ),
)

abbrev pub newest : List Webhook
newest = hook "w3" "ann" "3" 1 ∷ hook "w2" "ann" "2" 0 ∷ hook "w1" "ann" "1" 0 ∷ []

pub arranged_to :
    (r : Webhook) → In r newest → In r start.webhooks × (matching db "ann" no_filters r ≡ true)
unfolding filter_tests all_of string_eq
arranged_to r (inl e) = (inr (inr (inl e)), rw e refl)
arranged_to r (inr (inl e)) = (inr (inl e), rw e refl)
arranged_to r (inr (inr (inl e))) = (inl e, rw e refl)
arranged_to r (inr (inr (inr i))) = absurd i

pub arranged_from :
    (r : Webhook) → In r start.webhooks → matching db "ann" no_filters r ≡ true → In r newest
unfolding filter_tests all_of string_eq
arranged_from r (inl e) h = inr (inr (inl e))
arranged_from r (inr (inl e)) h = inr (inl e)
arranged_from r (inr (inr (inl e))) h = inl e
arranged_from r (inr (inr (inr (inl e)))) h = cc (rw e at h)
arranged_from r (inr (inr (inr (inr i)))) h = absurd i

pub arranged : Arranges (newest_first db) (matching db "ann" no_filters) start.webhooks newest
unfolding newest_first string_eq in_array
arranged = (
  (((refl, refl), ((refl, refl), tt)), (((refl, refl), tt), (tt, tt))),
  λ r. (λ i. arranged_to r i, λ h. arranged_from r h.0 h.1),
)

unique : (r : Webhook) → In r start.webhooks → r.id ≡ "w2" → r ≡ hook "w2" "ann" "2" 0
unfolding string_eq
unique r (inl e) h = absurd (differs "w1" "w2" refl (rw e at h))
unique r (inr (inl e)) h = e
unique r (inr (inr (inl e))) h = absurd (differs "w3" "w2" refl (rw e at h))
unique r (inr (inr (inr (inl e)))) h = absurd (differs "w4" "w2" refl (rw e at h))
unique r (inr (inr (inr (inr i)))) h = absurd i

find_many_next_page_example :
    Post
      (handler
        (context complete)
        db
        no_filters
        (record { limit = 2; cursor = some (record { id = "w2"; reverse = false }) })
        start)
      (λ page w'.
        (page.payload ≡ take 2 (hook "w1" "ann" "1" 0 ∷ []))
        × (page.pagination.has_next ≡ ltb 2 1)
        × (page.pagination.has_prev ≡ true))
find_many_next_page_example =
    find_many_next_page (context complete) db webhooks_of webhook_table-IsTable no_filters 2 start
      distinct (hook "w3" "ann" "3" 1 ∷ []) (hook "w1" "ann" "1" 0 ∷ []) (hook "w2" "ann" "2" 0)
      db-IsStrict arranged unique

find_many_prev_page_example :
    Post
      (handler
        (context complete)
        db
        no_filters
        (record { limit = 2; cursor = some (record { id = "w2"; reverse = true }) })
        start)
      (λ page w'.
        (page.payload ≡ drop (1 - 2) (hook "w3" "ann" "3" 1 ∷ []))
        × (page.pagination.has_prev ≡ ltb 2 1)
        × (page.pagination.has_next ≡ true))
find_many_prev_page_example =
    find_many_prev_page (context complete) db webhooks_of webhook_table-IsTable no_filters 2 start
      distinct (hook "w3" "ann" "3" 1 ∷ []) (hook "w1" "ann" "1" 0 ∷ []) (hook "w2" "ann" "2" 0)
      db-IsStrict arranged unique
