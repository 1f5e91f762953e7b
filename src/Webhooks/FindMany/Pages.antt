-- ===== src/Webhooks/FindMany/Pages.antt =====
-- The pages of a user's webhooks, against one list of all that match the filters, newest first.
use block_feed_prototype.Prelude.{
  ℕ, suc, ◌+◌, ◌-◌, ◌≡◌, refl, sym, ap, ◌∙◌, Bool, true, false, ◌&&◌, Option, none, some, List, [],
  ◌∷◌, ◌++◌, reverse, String, ltb, length, take, drop, length-reverse, ◌==◌, string_eq,
  if◌then◌else◌, arith, inl, eq_refl,
}
use block_feed_prototype.Promise.{Post, Post-bind, Post-map, Post_of_OnOk, pure, OnOk-map}
use block_feed_prototype.Db.Schema.{Webhook, webhooks_clash}
use block_feed_prototype.Db.Table.{IsTable, In, Distinct, Arranges, Found}
use block_feed_prototype.Db.Rows.{In-All}
use block_feed_prototype.Db.Order.{Arranges-after, Arranges-before, Arranges-cong, append-In_right}
use block_feed_prototype.Db.Effects.{find_first_post}
use block_feed_prototype.Graphql.Context.{Context}
use block_feed_prototype.Webhooks.FindMany.Taking.{
  page_of, paginate-take, reverse-take-reverse, all_of-snoc,
}
use native.Mathlib.Numerals.{add-one}
use block_feed_prototype.Webhooks.FindMany.{
  Filters, Collation, all_of, passes, filter_tests, cursor_test, newest_first, oldest_first,
  is_reverse, paginate, find_cursor, find_page, handler, with_direction,
}

-- A strict order of the two columns: no value comes before itself.
pub record IsStrict (db : Collation) : Type 0 where
  pub created : (t : String) → db.created_lt t t ≡ false
  pub id : (s : String) → db.id_lt s s ≡ false

-- Whether a row belongs to the user and passes the filters.
abbrev pub matching : Collation → String → Filters → Webhook → Bool
matching db user_id filters = all_of (filter_tests db user_id filters)

abbrev order_of : Collation → Option (Webhook × Bool) → Webhook → Webhook → Bool
order_of db cursor = if is_reverse cursor then oldest_first db else newest_first db

newest_first_irreflexive :
    (db : Collation) → IsStrict db → (c : Webhook) → newest_first db c c ≡ false
unfolding newest_first
newest_first_irreflexive db strict c = ground (arith, strict.created c.created_at, strict.id c.id)

module _ {W Cluster : Type 0} (ctx : Context W Cluster) (db : Collation) (rows : W → List Webhook)
    (table : IsTable ctx.providers.webhook rows webhooks_clash) (filters : Filters) (limit : ℕ)
    (w : W) (distinct : Distinct (rows w)) where
  page-Post :
      (cursor : Option (Webhook × Bool)) (s : List Webhook) (w' : W)
      → rows w' ≡ rows w
      → Arranges
          (order_of db cursor)
          (λ r. matching db ctx.user_id filters r && passes (cursor_test db cursor) r)
          (rows w)
          s
      → Post (find_page ctx db filters limit cursor w') (λ page w''. page ≡ page_of limit cursor s)
  unfolding find_page
  page-Post cursor s w' same arranged =
      let tests = all_of (filter_tests db ctx.user_id filters ++ cursor_test db cursor ∷ []) in
      let before = order_of db cursor in
      let found : Arranges before tests (rows w') s = rw same (
        Arranges-cong before _ tests (rows w) s
          (λ r. sym (all_of-snoc (filter_tests db ctx.user_id filters) (cursor_test db cursor) r))
          arranged) in
      Post-bind (λ rs w''. (rs ≡ take (suc limit) s) × (rows w'' ≡ rows w'))
        (λ page w''. page ≡ page_of limit cursor s)
        (ctx.providers.webhook.find_page tests before (limit + 1))
        (λ rs. pure (paginate limit cursor rs)) w'
        (Post_of_OnOk (λ rs. rs ≡ take (suc limit) s) rows
          (ctx.providers.webhook.find_page tests before (limit + 1) w') (rows w')
          (OnOk-map
            (λ rs.
              Distinct (rows w')
              → (s : List Webhook) → Arranges before tests (rows w') s
              → rs ≡ take (limit + 1) s)
            (λ rs. rs ≡ take (suc limit) s) _
            (λ rs h. h (rw same distinct) s found ∙ ap (λ k. take k s) (add-one limit))
            (table.find_page_value tests before (limit + 1) w'))
          (table.find_page_keeps tests before (limit + 1) w'))
        (λ rs w'' h. ap (paginate limit cursor) h.0 ∙ paginate-take limit cursor s)

  -- Without a cursor a page that is returned is the first: the newest matching webhooks of the user,
  -- as many as the limit allows, if no row stands in the table twice and the database can order
  -- those that match. There is a next page exactly if more match, and no previous one.
  pub find_many_first_page :
      (s : List Webhook)
      → Arranges (newest_first db) (matching db ctx.user_id filters) (rows w) s
      → Post (handler ctx db filters (record { limit = limit; cursor = none }) w) (λ page w'.
        (page.payload ≡ take limit s)
        × (page.pagination.has_next ≡ ltb limit (length s))
        × (page.pagination.has_prev ≡ false))
  unfolding handler find_cursor cursor_test
  find_many_first_page s arranged =
      Post-map (λ page w'. page ≡ page_of limit none s) _ _ (λ page w' e. rw e (refl, refl, refl))
        (page-Post none s w refl
          (Arranges-cong (newest_first db) _ _ (rows w) s (λ r. ground arith) arranged))

  module _ (pre post : List Webhook) (c : Webhook) (strict : IsStrict db)
      (arranged : Arranges
        (newest_first db)
        (matching db ctx.user_id filters)
        (rows w)
        (pre ++ c ∷ post))
      (unique : (r : Webhook) → In r (rows w) → r.id ≡ c.id → r ≡ c) where
    present : In c (rows w) × (matching db ctx.user_id filters c ≡ true)
    present = (arranged.1 c).0 (append-In_right c pre (c ∷ post) (inl refl))

    cursor-Found :
        (o : Option Webhook)
        → Found (λ r. r.customer_id == ctx.user_id && r.id == c.id) (rows w) o
        → o ≡ some c
    unfolding filter_tests all_of
    cursor-Found none h = cc (
      In-All (λ r. (r.customer_id == ctx.user_id && r.id == c.id) ≡ false) (rows w) h present.0,
      own,
    )
      where
        own : (c.customer_id == ctx.user_id && c.id == c.id) ≡ true
        own = ground (arith, present.1, eq_refl c.id)
    cursor-Found (some r) h = ap some (unique r h.0 (ground arith))

    cursor-Post :
        (backwards : Bool)
        → Post
            (find_cursor ctx (some (record { id = c.id; reverse = backwards })) w)
            (λ cursor w'. (cursor ≡ some (c, backwards)) × (rows w' ≡ rows w))
    unfolding find_cursor
    cursor-Post backwards =
        let test = λ (r : Webhook). r.customer_id == ctx.user_id && r.id == c.id in
        Post-bind (λ o w'. Found test (rows w) o × (rows w' ≡ rows w))
          (λ cursor w'. (cursor ≡ some (c, backwards)) × (rows w' ≡ rows w))
          (ctx.providers.webhook.find_first test)
          (λ webhook. pure (with_direction backwards webhook)) w
          (find_first_post ctx.providers.webhook rows webhooks_clash table test w)
          (λ o w' h. (ap (with_direction backwards) (cursor-Found o h.0), h.1))

    cursor_page :
        (backwards : Bool) (s : List Webhook)
        → Arranges
            (order_of db (some (c, backwards)))
            (λ r.
              matching db ctx.user_id filters r && passes (cursor_test db (some (c, backwards))) r)
            (rows w)
            s
        → Post
            (handler ctx db filters
              (record { limit = limit; cursor = some (record { id = c.id; reverse = backwards }) })
              w)
            (λ page w'. page ≡ page_of limit (some (c, backwards)) s)
    unfolding handler
    cursor_page backwards s a =
        Post-bind (λ cursor w'. (cursor ≡ some (c, backwards)) × (rows w' ≡ rows w)) _
          (find_cursor ctx (some (record { id = c.id; reverse = backwards })))
          (find_page ctx db filters limit) w (cursor-Post backwards)
          (λ cursor w' h. rw h.0 (page-Post (some (c, backwards)) s w' h.1 a))

    -- The page after a cursor that stands in the user's matching webhooks, if it is returned, holds
    -- the rows right behind it, newest first, as many as the limit allows: if no row stands in the
    -- table twice, the columns of the order are ordered strictly, and only the row of the cursor has
    -- its identifier. There is a next page exactly if more follow, and there is a previous one.
    pub find_many_next_page :
        Post
          (handler ctx db filters
            (record { limit = limit; cursor = some (record { id = c.id; reverse = false }) })
            w)
          (λ page w'.
            (page.payload ≡ take limit post)
            × (page.pagination.has_next ≡ ltb limit (length post))
            × (page.pagination.has_prev ≡ true))
    unfolding cursor_test newest_first
    find_many_next_page =
        Post-map (λ page w'. page ≡ page_of limit (some (c, false)) post) _ _
          (λ page w' e. rw e (refl, refl, refl))
          (cursor_page false post (
            Arranges-cong (newest_first db) _ _ (rows w) post (λ r. ground arith)
              (Arranges-after (newest_first db) (matching db ctx.user_id filters) (rows w) pre post
                c (newest_first_irreflexive db strict c) arranged)))

    -- The page before a cursor that stands in the user's matching webhooks, if it is returned, holds
    -- the rows right before it, newest first, as many as the limit allows, under the same conditions
    -- as for the page after it: no row twice, a strict order, and one row with the identifier of the
    -- cursor. There is a previous page exactly if more stand before them, and there is a next one.
    pub find_many_prev_page :
        Post
          (handler ctx db filters
            (record { limit = limit; cursor = some (record { id = c.id; reverse = true }) })
            w)
          (λ page w'.
            (page.payload ≡ drop (length pre - limit) pre)
            × (page.pagination.has_prev ≡ ltb limit (length pre))
            × (page.pagination.has_next ≡ true))
    unfolding cursor_test newest_first oldest_first
    find_many_prev_page =
        Post-map (λ page w'. page ≡ page_of limit (some (c, true)) (reverse pre)) _ _
          (λ page w' e.
            rw e (reverse-take-reverse limit pre, ap (ltb limit) (length-reverse pre), refl))
          (cursor_page true (reverse pre) (
            Arranges-cong (oldest_first db) _ _ (rows w) (reverse pre) (λ r. ground arith)
              (Arranges-before (newest_first db) (matching db ctx.user_id filters) (rows w) pre post
                c (newest_first_irreflexive db strict c) arranged)))
