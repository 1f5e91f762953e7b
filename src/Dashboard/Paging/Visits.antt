-- ===== src/Dashboard/Paging/Visits.antt =====
-- The pages that a user visits: each is asked for with the parameter that the page before it gives,
-- while the user's webhooks stay as they are.
use block_feed_prototype.Prelude.{
  ℕ, suc, ◌≤◌, ◌<◌, ◌-◌, ltb, take, drop, length, eq_refl, ◌≡◌, refl, sym, ◌∙◌, subst, Bool, true,
  false, none, some, List, [], ◌∷◌, ◌++◌, String, ◌==◌, string_eq, inl, arith,
}
use block_feed_prototype.Promise.{Result, ok, Post}
use block_feed_prototype.Db.Schema.{Webhook, webhooks_clash}
use block_feed_prototype.Db.Table.{IsTable, In, Distinct, Arranges}
use block_feed_prototype.Db.Order.{append-In_right}
use block_feed_prototype.Graphql.Context.{Context}
use block_feed_prototype.Webhooks.FindMany.{Webhooks, Collation, newest_first}
use block_feed_prototype.Webhooks.FindMany.Pages.{
  IsStrict, matching, find_many_first_page, find_many_next_page, find_many_prev_page,
}
use block_feed_prototype.Dashboard.Search.{PageFilters}
use block_feed_prototype.Dashboard.Paging.{
  PageParam, initial_page_param, request_filters, request_pagination, get_next_page_param,
  get_previous_page_param, query_page, first_id,
}
use block_feed_prototype.Dashboard.Paging.Blocks.{
  IsPage, Stop, offset, start, behind, ahead, next-Stop, previous-Stop, start-IsPage, behind-IsPage,
  ahead-IsPage,
}

Post_at :
    {W : Type 0} (Q : Webhooks → W → Type 0) {r : Result Webhooks × W} {page : Webhooks} {w : W}
    → r ≡ (ok page, w)
    → Post r Q
    → Q page w
Post_at Q e h = subst (λ r. Post r Q) e h

-- What a query says of a page: its webhooks and whether others stand behind it and before it.
abbrev Says : {W : Type 0} → List Webhook → Bool → Bool → Webhooks → W → Type 0
Says shown has_next has_prev page w =
    (page.payload ≡ shown)
    × (page.pagination.has_next ≡ has_next)
    × (page.pagination.has_prev ≡ has_prev)

module _ {W Cluster : Type 0} (ctx : Context W Cluster) (db : Collation) (filters : PageFilters)
    (limit : ℕ) (rows : W → List Webhook) (stored : List Webhook) where
  -- The query for a page, whatever else has happened to the world before.
  abbrev pub Answers : PageParam → Webhooks → Type 0
  Answers param page =
      (w : W) × (w' : W) × (rows w ≡ stored)
      × (query_page ctx db filters limit param w ≡ (ok page, w'))

  -- The page comes up, is refreshed, or gives way to the next or the previous one.
  pub data Visit : PageParam → Webhooks → Type 0 where
    first : {page : Webhooks} → Answers initial_page_param page → Visit initial_page_param page
    refresh :
        {param : PageParam} {page page' : Webhooks}
        → Visit param page
        → Answers param page'
        → Visit param page'
    next :
        {param param' : PageParam} {page page' : Webhooks}
        → Visit param page
        → get_next_page_param page (page ∷ []) ≡ some param'
        → Answers param' page'
        → Visit param' page'
    previous :
        {param param' : PageParam} {page page' : Webhooks}
        → Visit param page
        → get_previous_page_param page (page ∷ []) ≡ some param'
        → Answers param' page'
        → Visit param' page'

  module _ (table : IsTable ctx.providers.webhook rows webhooks_clash) (some_rows : 1 ≤ limit)
      (distinct : Distinct stored) (strict : IsStrict db)
      (named : (r : Webhook) → In r stored → (r.id == "") ≡ false)
      (unique : (c r : Webhook) → In c stored → In r stored → r.id ≡ c.id → r ≡ c)
      (s : List Webhook)
      (arranged : Arranges
        (newest_first db)
        (matching db ctx.user_id (request_filters filters))
        stored
        s) where
    no_cursor :
        request_pagination limit initial_page_param ≡ record { limit = limit; cursor = none }
    unfolding request_pagination
    no_cursor = rw (eq_refl {A = String} "") refl

    cursor_for :
        (reverse : Bool) (c : Webhook)
        → In c stored
        → request_pagination limit (record { reverse = reverse; id = c.id })
          ≡ record { limit = limit; cursor = some (record { id = c.id; reverse = reverse }) }
    unfolding request_pagination
    cursor_for reverse c i = rw (named c i) refl

    query-start-IsPage : (page : Webhooks) → Answers initial_page_param page → IsPage limit s 0 page
    query-start-IsPage page (w, w', same, e) =
        let (shown, more, before) =
          Post_at (Says (take limit s) (ltb limit (length s)) false) (rw no_cursor at e) (
            find_many_first_page ctx db rows table (request_filters filters) limit w
              (rw same distinct) s (rw same arranged)) in
        start-IsPage limit s page shown more before

    module _ (pre post : List Webhook) (c : Webhook) (whole : s ≡ pre ++ c ∷ post) where
      in_stored : In c stored
      in_stored = ((arranged.1 c).0 (rw whole (append-In_right c pre (c ∷ post) (inl refl)))).0

      query-behind-IsPage :
          (k : ℕ) (page : Webhooks)
          → suc (length pre) ≡ offset limit s k
          → offset limit s k < length s
          → Answers (record { reverse = false; id = c.id }) page
          → IsPage limit s k page
      query-behind-IsPage k page at_last far (w, w', same, e) =
          let (shown, more, before) =
            Post_at (Says (take limit post) (ltb limit (length post)) true)
              (rw (cursor_for false c in_stored) at e)
              (find_many_next_page ctx db rows table (request_filters filters) limit w
                (rw same distinct) pre post c strict (rw (same, ← whole) arranged)
                (λ r i. unique c r in_stored (rw same at i))) in
          behind-IsPage limit s pre post c k whole page at_last far shown more before

      query-ahead-IsPage :
          (k : ℕ) (page : Webhooks)
          → length pre ≡ offset limit s (suc k)
          → Answers (record { reverse = true; id = c.id }) page
          → IsPage limit s k page
      query-ahead-IsPage k page at_first (w, w', same, e) =
          let (shown, before, more) =
            Post_at
              (λ page' w''.
                (page'.payload ≡ drop (length pre - limit) pre)
                × (page'.pagination.has_prev ≡ ltb limit (length pre))
                × (page'.pagination.has_next ≡ true))
              (rw (cursor_for true c in_stored) at e)
              (find_many_prev_page ctx db rows table (request_filters filters) limit w
                (rw same distinct) pre post c strict (rw (same, ← whole) arranged)
                (λ r i. unique c r in_stored (rw same at i))) in
          ahead-IsPage limit s pre post c k whole page some_rows at_first shown before more

    query-IsPage :
        (param : PageParam) (k : ℕ) (page : Webhooks)
        → Stop limit s param k
        → Answers param page
        → IsPage limit s k page
    query-IsPage _ _ page start a = query-start-IsPage page a
    query-IsPage _ _ page (behind pre post c k whole at_last far) a =
        query-behind-IsPage pre post c whole k page at_last far a
    query-IsPage _ _ page (ahead pre post c k whole at_first) a =
        query-ahead-IsPage pre post c whole k page at_first a

    Visit-IsPage :
        (param : PageParam) (page : Webhooks)
        → Visit param page
        → (k : ℕ) × Stop limit s param k × IsPage limit s k page
    Visit-IsPage _ page (first a) = (0, start, query-IsPage initial_page_param 0 page start a)
    Visit-IsPage param page (refresh {page = old} v a) =
        let (k, stop, _) = Visit-IsPage param old v in (k, stop, query-IsPage param k page stop a)
    Visit-IsPage param page (next {param = from} {page = old} v e a) =
        let (k, _, h) = Visit-IsPage from old v in
        let stop : Stop limit s param (suc k) = next-Stop limit s k old param some_rows h e in
        (suc k, stop, query-IsPage param (suc k) page stop a)
    Visit-IsPage param page (previous {param = from} {page = old} v e a) =
        let (k, _, h) = Visit-IsPage from old v in
        let (j, _, stop) = previous-Stop limit s k old param some_rows h e in
        (j, stop, query-IsPage param j page stop a)

    -- Every page that a user visits, by the buttons or a refresh, is a block of the list of all their
    -- webhooks that match the filters, newest first, as long as the limit allows, and its flags tell
    -- whether another block stands behind it and before it: if the webhooks stay as they are, no row
    -- stands in the table twice, identifiers are unique and not empty, the columns of the order are
    -- ordered strictly, and the limit is not zero.
    pub visit_block :
        (param : PageParam) (page : Webhooks) → Visit param page → (k : ℕ) × IsPage limit s k page
    visit_block param page v = let (k, _, h) = Visit-IsPage param page v in (k, h)

    same_page :
        (k : ℕ) (page page' : Webhooks)
        → IsPage limit s k page
        → IsPage limit s k page'
        → page ≡ page'
    same_page k page page' h h' =
        let shown : page.payload ≡ page'.payload = h.payload ∙ sym h'.payload in
        let more : page.pagination.has_next ≡ page'.pagination.has_next =
          h.has_next ∙ sym h'.has_next in
        let before : page.pagination.has_prev ≡ page'.pagination.has_prev =
          h.has_prev ∙ sym h'.has_prev in
        cc

    -- From a page that a user visits, the next page always offers the way back, which leads to the same
    -- page again, under the conditions of the blocks.
    pub previous-next :
        (param param' : PageParam) (page page' page'' : Webhooks)
        → Visit param page
        → get_next_page_param page (page ∷ []) ≡ some param'
        → Answers param' page'
        → let back : PageParam = record { reverse = true; id = first_id page'.payload } in
          Answers back page''
          → (get_previous_page_param page' (page' ∷ []) ≡ some back) × (page'' ≡ page)
    unfolding get_previous_page_param
    previous-next param param' page page' page'' v e a a' =
        let (k, _, h) = Visit-IsPage param page v in
        let h' : IsPage limit s (suc k) page' =
          query-IsPage param' (suc k) page' (next-Stop limit s k page param' some_rows h e) a in
        let behind_first : ltb 0 (offset limit s (suc k)) ≡ true = ground arith in
        let back : PageParam = record { reverse = true; id = first_id page'.payload } in
        let offered : get_previous_page_param page' (page' ∷ []) ≡ some back =
          rw (h'.has_prev ∙ behind_first) refl in
        let (j, number, stop) = previous-Stop limit s (suc k) page' back some_rows h' offered in
        let stop' = subst (Stop limit s back) (let e : j ≡ k = omega arith in e) stop in
        (offered, same_page k page'' page (query-IsPage back k page'' stop' a') h)
