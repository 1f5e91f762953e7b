-- ===== src/Dashboard/Table.antt =====
-- apps/dashboard/src/components/home/webhooks-table.tsx: the boxes that a user checks, which buttons
-- are enabled, and what they send.
pub mod Selection
pub mod Checked
pub mod Buttons
pub mod HeadBox
use block_feed_prototype.Prelude.{
  ℕ, ℤ, Bool, true, false, not, ◌&&◌, ◌||◌, Option, none, some, List, [], ◌∷◌, map, String, ltb,
  keep, length, ◌==◌, string_eq, nat_eq, if◌then◌else◌,
}
use block_feed_prototype.Js.Map.{Map, set, values}
use block_feed_prototype.Db.Schema.{Webhook}
use block_feed_prototype.Dashboard.Search.{format_webhook_status}

-- A row of `WebhookCheckboxState`.
pub record Checkbox : Type 0 where
  pub webhook : Webhook
  pub is_checked : Bool

abbrev pub Checkboxes : Type 0
Checkboxes = Map String Checkbox

abbrev pub add_all : Checkboxes → List Webhook → Checkboxes
add_all selected [] = selected
add_all selected (w ∷ ws) =
    add_all (set w.id (record { webhook = w; is_checked = false }) selected) ws

-- `new Map(props.webhooks.map(…))`
unfoldable pub reset_selected : List Webhook → Checkboxes
reset_selected webhooks = add_all [] webhooks

-- What the table gets from the page.
pub record TableProps : Type 0 where
  pub webhooks : List Webhook
  pub is_fetching : Bool
  pub is_fetching_next_page : Bool
  pub is_fetching_prev_page : Bool
  pub has_next_page : Bool
  pub has_prev_page : Bool

-- `isPending` of the three mutations.
pub record Pending : Type 0 where
  pub activator : Bool
  pub remover : Bool
  pub editor : Bool

abbrev pub checked : Checkboxes → List Checkbox
checked selected = keep (λ v. v.is_checked) (values selected)

unfoldable pub is_everything_checked : Checkboxes → Bool
is_everything_checked selected =
    not (length selected == 0) && length (checked selected) == length selected

unfoldable pub check_all : Bool → Checkboxes → Checkboxes
check_all is_checked [] = []
check_all is_checked ((k, v) ∷ selected) =
    (k, record { webhook = v.webhook; is_checked = is_checked }) ∷ check_all is_checked selected

abbrev pub check_entry : String → Bool → String × Checkbox → String × Checkbox
check_entry key is_checked (k, v) =
    if k == key then (k, record { webhook = v.webhook; is_checked = is_checked }) else (k, v)

unfoldable pub check_one : String → Bool → Checkboxes → Checkboxes
check_one key is_checked [] = []
check_one key is_checked (entry ∷ selected) =
    check_entry key is_checked entry ∷ check_one key is_checked selected

abbrev ids_of : List Checkbox → List String
ids_of [] = []
ids_of (v ∷ vs) = v.webhook.id ∷ ids_of vs

unfoldable pub get_checked_webhook_ids : Checkboxes → List String
get_checked_webhook_ids selected = ids_of (checked selected)

abbrev inactive_of : List Checkbox → List Checkbox
inactive_of vs = keep (λ v. v.webhook.is_active == 0) vs

unfoldable pub can_activate : TableProps → Pending → Checkboxes → Bool
can_activate props pending selected =
    not props.is_fetching
    && not pending.activator
    && ltb 0 (length (checked selected))
    && length (inactive_of (checked selected)) == length (checked selected)

unfoldable pub can_delete : TableProps → Pending → Checkboxes → Bool
can_delete props pending selected =
    not props.is_fetching && not pending.remover && ltb 0 (length (checked selected))

-- A button: whether it is disabled, whether it is drawn faded, and whether it shows that it is loading in
-- place of its caption.
pub record ButtonView : Type 0 where
  pub disabled : Bool
  pub faded : Bool
  pub loading : Bool

unfoldable pub prev_button : TableProps → ButtonView
prev_button props = record { disabled = off; faded = off; loading = props.is_fetching_prev_page }
  where
    off : Bool
    off = props.is_fetching || props.is_fetching_prev_page || not props.has_prev_page

unfoldable pub next_button : TableProps → ButtonView
next_button props = record { disabled = off; faded = off; loading = props.is_fetching_next_page }
  where
    off : Bool
    off = props.is_fetching || props.is_fetching_next_page || not props.has_next_page

unfoldable pub refresh_button : TableProps → ButtonView
refresh_button props = record {
  disabled = props.is_fetching;
  faded = props.is_fetching;
  loading = props.is_fetching && not props.is_fetching_next_page && not props.is_fetching_prev_page;
}

unfoldable pub activate_button : TableProps → Pending → Checkboxes → ButtonView
activate_button props pending selected = record {
  disabled = not (can_activate props pending selected);
  faded = not (can_activate props pending selected);
  loading = pending.activator;
}

unfoldable pub delete_button : TableProps → Pending → Checkboxes → ButtonView
delete_button props pending selected = record {
  disabled = not (can_delete props pending selected);
  faded = not (can_delete props pending selected);
  loading = pending.remover;
}

-- A row of the table: its box and its cells.
pub record RowView : Type 0 where
  pub is_checked : Bool
  pub url : String
  pub created_at : String
  pub status : String
  pub max_retries : ℤ
  pub max_blocks : ℤ
  pub timeout_ms : ℤ
  pub blockchain_id : String

module _ (format_utc_date_str : String → String) where
  abbrev pub row_view : Checkbox → RowView
  row_view v = record {
    is_checked = v.is_checked;
    url = v.webhook.url;
    created_at = format_utc_date_str v.webhook.created_at;
    status = format_webhook_status v.webhook.is_active;
    max_retries = v.webhook.max_retries;
    max_blocks = v.webhook.max_blocks;
    timeout_ms = v.webhook.timeout_ms;
    blockchain_id = v.webhook.blockchain_id;
  }

  unfoldable pub table_rows : Checkboxes → List RowView
  table_rows [] = []
  table_rows ((k, v) ∷ selected) = row_view v ∷ table_rows selected

-- The state of the component.
pub record TableState : Type 0 where
  pub webhook_to_edit : Option Webhook
  pub selected : Checkboxes

-- New webhooks from the page, a box that is clicked, the pencil of a row, and the end of editing: the
-- dialog is closed, the form does not parse, or the mutation has settled.
pub data TableEvent : Type 0 where
  webhooks_changed : List Webhook → TableEvent
  box_all : Bool → TableEvent
  box_one : String → Bool → TableEvent
  edit : Webhook → TableEvent
  editing_ended : TableEvent

abbrev pub mounted : TableState
mounted = record { webhook_to_edit = none; selected = [] }

unfoldable pub table_step : TableState → TableEvent → TableState
table_step state (webhooks_changed webhooks) = record state { selected = reset_selected webhooks }
table_step state (box_all is_checked) = record state {
  selected = check_all is_checked state.selected;
}
table_step state (box_one key is_checked) = record state {
  selected = check_one key is_checked state.selected;
}
table_step state (edit webhook) = record state { webhook_to_edit = some webhook }
table_step state editing_ended = record state { webhook_to_edit = none }

-- What a click of a button asks the server for, if the button is enabled.
abbrev pub unless_disabled : ButtonView → List String → Option (List String)
unless_disabled button ids = if button.disabled then none else some ids

unfoldable pub on_activate : TableProps → Pending → Checkboxes → Option (List String)
unfolding activate_button
on_activate props pending selected =
    unless_disabled (activate_button props pending selected) (get_checked_webhook_ids selected)

unfoldable pub on_delete : TableProps → Pending → Checkboxes → Option (List String)
unfolding delete_button
on_delete props pending selected =
    unless_disabled (delete_button props pending selected) (get_checked_webhook_ids selected)

pub data Button : Type 0 where
  activate_selected delete_selected : Button

abbrev pub clicked : Button → TableProps → Pending → Checkboxes → Option (List String)
clicked activate_selected = on_activate
clicked delete_selected = on_delete
