-- ===== src/Examples/Dashboard.antt =====
-- A user at the dashboard: searches, selections and forms.
use block_feed_prototype.Prelude.{
  ℕ, ℤ, pos, between, ◌≡◌, refl, Bool, true, false, not, ◌&&◌, Option, none, some, List, [], ◌∷◌,
  String, leb, in_array, All, ◌==◌, string_eq, nat_eq, if◌then◌else◌, arith, ◌≤◌, length,
}
use block_feed_prototype.Db.Schema.{Webhook}
use block_feed_prototype.Db.Table.{In}
use block_feed_prototype.Js.Map.{set, values}
use block_feed_prototype.Stripe.Types.{complete}
use block_feed_prototype.Webhooks.Inputs.{Zod, UpdateData, valid_update}
use block_feed_prototype.Webhooks.Update.{patch}
use block_feed_prototype.Dashboard.Search.{SearchForm, search_filters}
use block_feed_prototype.Dashboard.SearchStatus.{search_status_ignored}
use block_feed_prototype.Dashboard.Paging.{initial_page_param, query_page, page_limit}
use block_feed_prototype.Dashboard.Table.{
  TableProps, Pending, TableEvent, webhooks_changed, box_one, mounted, reset_selected, check_one,
  table_step, get_checked_webhook_ids, can_delete, delete_button, on_delete, delete_selected,
  clicked,
}
use block_feed_prototype.Dashboard.Table.Selection.{run, shown_by, Gives}
use block_feed_prototype.Dashboard.Table.Buttons.{Sends, Target, clicked-Sends}
use block_feed_prototype.Dashboard.Forms.{
  Input, url_input, number_input, select, Parser, blank_edit, parse_edit, create_inputs,
}
use block_feed_prototype.Dashboard.Forms.Accepted.{IsBrowser, is_required}
use block_feed_prototype.Dashboard.Forms.Cleared.{cleared_fields}
use block_feed_prototype.Dashboard.Dialogs.{
  CreatorEvent, open_modal, submit, settled, fill, url, blockchain_id, max_retries, max_blocks,
  timeout_ms, fill_create, creator_step, no_creation, Editor, edit_webhook, close_editor,
  submit_edits, editor_step,
}
use block_feed_prototype.Dashboard.Dialogs.Requests.{
  creator_run, AllAllowed, AllValid, creations_accepted,
}
use block_feed_prototype.Dashboard.Dialogs.CarryOver.{edits_carry_over}
use block_feed_prototype.Examples.World.{hook, context, start}
use block_feed_prototype.Examples.Pages.{db}

abbrev form : SearchForm
form = record { blockchain = some "eth"; status = some "active"; url = none }

search_status_ignored_example :
    query_page (context complete) db (search_filters form) 25 initial_page_param start
    ≡ query_page
        (context complete)
        db
        (search_filters (record form { status = some "inactive" }))
        25
        initial_page_param
        start
search_status_ignored_example =
    search_status_ignored (context complete) db form (some "inactive") 25 initial_page_param start

abbrev zod : Zod
zod = record { is_url = λ s. true; is_uuid = λ s. true; length = λ s. 10 }

abbrev events : List TableEvent
events =
    webhooks_changed (hook "w1" "ann" "1" 0 ∷ hook "w2" "ann" "2" 0 ∷ []) ∷ box_one "w2" true ∷ []

abbrev idle : TableProps
idle = record {
  webhooks = hook "w1" "ann" "1" 0 ∷ hook "w2" "ann" "2" 0 ∷ [];
  is_fetching = false;
  is_fetching_next_page = false;
  is_fetching_prev_page = false;
  has_next_page = false;
  has_prev_page = false;
}

abbrev nothing_pending : Pending
nothing_pending = record { activator = false; remover = false; editor = false }

events-Gives : All Gives events
unfolding string_eq
events-Gives = (((refl, tt), (tt, tt)), (tt, tt))

one_clicked :
    clicked delete_selected idle nothing_pending (run mounted events).selected ≡ some ("w2" ∷ [])
unfolding run table_step reset_selected check_one set on_delete delete_button can_delete
    get_checked_webhook_ids string_eq
one_clicked = refl

events-uuids : All (λ (w : Webhook). zod.is_uuid w.id ≡ true) (shown_by [] events)
unfolding shown_by
events-uuids = (refl, (refl, tt))

events-few : length (shown_by [] events) ≤ page_limit
unfolding shown_by
events-few = omega arith

clicked-Sends_example :
    Sends zod
      (Target delete_selected)
      (values (run mounted events).selected)
      (shown_by [] events)
      ("w2" ∷ [])
clicked-Sends_example =
    clicked-Sends zod events events-Gives events-uuids events-few delete_selected idle
      nothing_pending ("w2" ∷ []) one_clicked

-- `Number` on the texts that are typed below.
abbrev coerce_int : String → Option ℤ
coerce_int text = if text == "" then some (pos 0) else if text == "5" then some (pos 5) else none

abbrev parser : Parser
parser = record { zod = zod; coerce_int = coerce_int }

abbrev within : ℕ → ℕ → Option ℤ → Bool
within lo hi none = false
within lo hi (some z) = between lo hi z

-- A browser that checks what the attributes ask for.
abbrev passes : Input → String → Bool
passes (url_input required lo hi) text =
    if text == "" then not required else leb lo (zod.length text) && leb (zod.length text) hi
passes (number_input required lo hi) text =
    if text == "" then not required else within lo hi (coerce_int text)
passes (select required options) text = if text == "" then not required else in_array text options

otherwise : (b x y : Bool) → (if b then x else y) ≡ true → b ≡ false → y ≡ true
otherwise true x y h f = cc
otherwise false x y h f = h

within-some :
    (lo hi : ℕ) (o : Option ℤ) (z : ℤ) → within lo hi o ≡ true → o ≡ some z → between lo hi z ≡ true
within-some lo hi none z h e = cc
within-some lo hi (some y) z h e = let same : y ≡ z = cc in rw same at h

in_options :
    (text : String) (options : List String) → in_array text options ≡ true → In text options
unfolding in_array
in_options text [] h = cc
in_options text (o ∷ options) h = ground (arith, in_options text options)

passes-required :
    (i : Input) (text : String) → passes i text ≡ true → is_required i ≡ true → (text == "") ≡ false
passes-required (url_input required lo hi) text h r = ground arith
passes-required (number_input required lo hi) text h r = ground arith
passes-required (select required options) text h r = ground arith

passes-IsBrowser : IsBrowser parser passes
passes-IsBrowser = record {
  required = passes-required;
  url = λ required lo hi text h filled. rw filled at h;
  number = λ required lo hi text z h filled e.
      within-some lo hi (coerce_int text) z
        (otherwise (text == "") (not required) (within lo hi (coerce_int text)) h filled) e;
  option = λ required options text h filled. in_options text options (rw filled at h);
}

abbrev filled_in : List CreatorEvent
filled_in =
    open_modal
    ∷ fill url "https://b"
    ∷ fill max_blocks "5"
    ∷ fill max_retries "5"
    ∷ fill timeout_ms "5"
    ∷ fill blockchain_id "eth"
    ∷ submit
    ∷ settled
    ∷ []

filled_in-Allowed :
    AllAllowed parser passes passes-IsBrowser ("eth" ∷ []) (refl, tt) no_creation filled_in
unfolding creator_step fill_create create_inputs in_array string_eq
filled_in-Allowed =
    (tt, (tt, (tt, (tt, (tt, (tt, ((refl, (refl, (refl, (refl, (refl, tt))))), (tt, tt))))))))

creations_accepted_example :
    AllValid parser passes passes-IsBrowser
      ("eth" ∷ [])
      (refl, tt)
      (creator_run parser no_creation filled_in)
creations_accepted_example =
    creations_accepted parser passes passes-IsBrowser ("eth" ∷ []) (refl, tt) filled_in
      filled_in-Allowed

abbrev zeros : UpdateData
zeros = record {
  url = none;
  max_blocks = none;
  max_retries = some (pos 0);
  timeout_ms = some (pos 0);
}

abbrev zero_blocks : UpdateData
zero_blocks = record {
  url = none;
  max_blocks = some (pos 0);
  max_retries = none;
  timeout_ms = none;
}

zeros_parsed :
    parse_edit parser "w1" (record blank_edit { timeout_ms = some ""; max_retries = some "" })
    ≡ some zeros
unfolding parse_edit string_eq
zeros_parsed = refl

zero_blocks_parsed :
    parse_edit parser "w1" (record blank_edit { max_blocks = some "" }) ≡ some zero_blocks
unfolding parse_edit string_eq
zero_blocks_parsed = refl

zero_of_empty : coerce_int "" ≡ some (pos 0)
unfolding string_eq
zero_of_empty = refl

cleared_fields_example :
    ((patch zeros (hook "w1" "ann" "1" 0)).timeout_ms ≡ pos 0)
    × ((patch zeros (hook "w1" "ann" "1" 0)).max_retries ≡ pos 0)
    × (valid_update zod "w1" zero_blocks ≡ false)
cleared_fields_example =
    cleared_fields parser "w1" blank_edit zeros zero_blocks (hook "w1" "ann" "1" 0) zero_of_empty
      zeros_parsed zero_blocks_parsed

-- The dialog is open for one webhook, and an address is typed into it.
abbrev editing : Editor
editing = record {
  webhook_to_edit = some (hook "w1" "ann" "1" 0);
  form = record blank_edit { url = some "https://b" };
  is_pending = false;
  sent = [];
}

abbrev new_address : UpdateData
new_address = record {
  url = some "https://b";
  max_blocks = none;
  max_retries = none;
  timeout_ms = none;
}

new_address_parsed : parse_edit parser "w2" editing.form ≡ some new_address
unfolding parse_edit
new_address_parsed = refl

edits_carry_over_example :
    (editor_step parser
      (editor_step parser
        (editor_step parser editing close_editor)
        (edit_webhook (hook "w2" "ann" "2" 0)))
      submit_edits).sent
    ≡ ("w2", new_address) ∷ []
edits_carry_over_example =
    edits_carry_over parser editing (hook "w2" "ann" "2" 0) new_address refl new_address_parsed
