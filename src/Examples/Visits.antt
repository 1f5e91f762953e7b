-- ===== src/Examples/Visits.antt =====
-- A user with three webhooks, who turns from the first page of two to the second and back.
use block_feed_prototype.Prelude.{
  ℕ, ◌≡◌, refl, sym, ◌∙◌, true, false, some, [], ◌∷◌, ◌==◌, string_eq, nat_eq, inl, inr, arith,
  in_array,
}
use block_feed_prototype.Db.Schema.{Webhook}
use block_feed_prototype.Db.Table.{In, Arranges}
use block_feed_prototype.Db.Memory.{find, sort, insert_in}
use block_feed_prototype.Stripe.Types.{complete}
use block_feed_prototype.Webhooks.FindMany.{
  Webhooks, newest_first, oldest_first, filter_tests, all_of, cursor_test, paginate, find_cursor,
  find_page, handler,
}
use block_feed_prototype.Webhooks.FindMany.Pages.{matching}
use block_feed_prototype.Dashboard.Search.{no_filters}
use block_feed_prototype.Dashboard.Paging.{
  PageParam, initial_page_param, request_filters, request_pagination, get_next_page_param,
  get_previous_page_param,
}
use block_feed_prototype.Dashboard.Paging.Blocks.{IsPage}
use block_feed_prototype.Dashboard.Paging.Visits.{
  Answers, Visit, first, next, visit_block, previous-next,
}
use block_feed_prototype.Examples.World.{hook, context, start, webhooks_of, webhook_table-IsTable}
use block_feed_prototype.Examples.Pages.{db, db-IsStrict, distinct, newest, arranged, differs}

abbrev page_1 : Webhooks
page_1 = record {
  payload = hook "w3" "ann" "3" 1 ∷ hook "w2" "ann" "2" 0 ∷ [];
  pagination = record { has_next = true; has_prev = false };
}

abbrev page_2 : Webhooks
page_2 = record {
  payload = hook "w1" "ann" "1" 0 ∷ [];
  pagination = record { has_next = false; has_prev = true };
}

abbrev to_page_2 : PageParam
to_page_2 = record { reverse = false; id = "w2" }

abbrev back_to_page_1 : PageParam
back_to_page_1 = record { reverse = true; id = "w1" }

answer_1 :
    Answers (context complete) db no_filters 2 webhooks_of start.webhooks initial_page_param page_1
unfolding handler find_page find_cursor paginate filter_tests all_of cursor_test newest_first
    request_pagination string_eq in_array sort insert_in find
answer_1 = (start, start, refl, refl)

answer_2 : Answers (context complete) db no_filters 2 webhooks_of start.webhooks to_page_2 page_2
unfolding handler find_page find_cursor paginate filter_tests all_of cursor_test newest_first
    request_pagination string_eq in_array sort insert_in find
answer_2 = (start, start, refl, refl)

answer_back :
    Answers (context complete) db no_filters 2 webhooks_of start.webhooks back_to_page_1 page_1
unfolding handler find_page find_cursor paginate filter_tests all_of cursor_test oldest_first
    request_pagination string_eq in_array sort insert_in find
answer_back = (start, start, refl, refl)

leads_on : get_next_page_param page_1 (page_1 ∷ []) ≡ some to_page_2
unfolding get_next_page_param
leads_on = refl

abbrev visit_1 :
    Visit (context complete) db no_filters 2 webhooks_of start.webhooks initial_page_param page_1
visit_1 = first answer_1

abbrev visit_2 :
    Visit (context complete) db no_filters 2 webhooks_of start.webhooks to_page_2 page_2
visit_2 = next visit_1 leads_on answer_2

named : (r : Webhook) → In r start.webhooks → (r.id == "") ≡ false
unfolding string_eq
named r (inl e) = rw e refl
named r (inr (inl e)) = rw e refl
named r (inr (inr (inl e))) = rw e refl
named r (inr (inr (inr (inl e)))) = rw e refl
named r (inr (inr (inr (inr i)))) = absurd i

unique : (c r : Webhook) → In c start.webhooks → In r start.webhooks → r.id ≡ c.id → r ≡ c
unfolding string_eq
unique c r (inl f) (inl e) h = e ∙ sym f
unique c r (inl f) (inr (inl e)) h = absurd (differs "w2" "w1" refl (rw (e, f) at h))
unique c r (inl f) (inr (inr (inl e))) h = absurd (differs "w3" "w1" refl (rw (e, f) at h))
unique c r (inl f) (inr (inr (inr (inl e)))) h = absurd (differs "w4" "w1" refl (rw (e, f) at h))
unique c r (inr (inl f)) (inl e) h = absurd (differs "w1" "w2" refl (rw (e, f) at h))
unique c r (inr (inl f)) (inr (inl e)) h = e ∙ sym f
unique c r (inr (inl f)) (inr (inr (inl e))) h = absurd (differs "w3" "w2" refl (rw (e, f) at h))
unique c r (inr (inl f)) (inr (inr (inr (inl e)))) h =
    absurd (differs "w4" "w2" refl (rw (e, f) at h))
unique c r (inr (inr (inl f))) (inl e) h = absurd (differs "w1" "w3" refl (rw (e, f) at h))
unique c r (inr (inr (inl f))) (inr (inl e)) h = absurd (differs "w2" "w3" refl (rw (e, f) at h))
unique c r (inr (inr (inl f))) (inr (inr (inl e))) h = e ∙ sym f
unique c r (inr (inr (inl f))) (inr (inr (inr (inl e)))) h =
    absurd (differs "w4" "w3" refl (rw (e, f) at h))
unique c r (inr (inr (inr (inl f)))) (inl e) h = absurd (differs "w1" "w4" refl (rw (e, f) at h))
unique c r (inr (inr (inr (inl f)))) (inr (inl e)) h =
    absurd (differs "w2" "w4" refl (rw (e, f) at h))
unique c r (inr (inr (inr (inl f)))) (inr (inr (inl e))) h =
    absurd (differs "w3" "w4" refl (rw (e, f) at h))
unique c r (inr (inr (inr (inl f)))) (inr (inr (inr (inl e)))) h = e ∙ sym f
unique c r (inr (inr (inr (inr i)))) j h = absurd i
unique c r i (inr (inr (inr (inr j)))) h = absurd j

arranged_for :
    Arranges
      (newest_first db)
      (matching db "ann" (request_filters no_filters))
      start.webhooks
      newest
unfolding filter_tests
arranged_for = arranged

visit_block_example : (k : ℕ) × IsPage 2 newest k page_2
visit_block_example =
    visit_block (context complete) db no_filters 2 webhooks_of start.webhooks webhook_table-IsTable
      (omega arith) distinct db-IsStrict named unique newest arranged_for to_page_2 page_2 visit_2

previous-next_example :
    (get_previous_page_param page_2 (page_2 ∷ []) ≡ some back_to_page_1) × (page_1 ≡ page_1)
previous-next_example =
    previous-next (context complete) db no_filters 2 webhooks_of start.webhooks
      webhook_table-IsTable (omega arith) distinct db-IsStrict named unique newest arranged_for
      initial_page_param to_page_2 page_1 page_2 page_1 visit_1 leads_on answer_2 answer_back
