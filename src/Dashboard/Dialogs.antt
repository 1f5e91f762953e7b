-- ===== src/Dashboard/Dialogs.antt =====
-- The dialogs to create and to edit a webhook: apps/dashboard/src/components/home/webhooks-creator.tsx,
-- and the editing of webhooks-table.tsx, with the forms that they hold. `is_pending` is that of the
-- mutation: it is set by `mutate` and reset before `onSettled`.
pub mod CarryOver
pub mod Requests
use block_feed_prototype.Prelude.{
  Bool, true, false, Option, none, some, List, [], ◌∷◌, String, if◌then◌else◌,
}
use block_feed_prototype.Db.Schema.{Webhook}
use block_feed_prototype.Webhooks.Inputs.{CreateData, UpdateData}
use block_feed_prototype.Dashboard.Forms.{
  Parser, CreateForm, EditForm, blank_create, blank_edit, parse_create, parse_edit,
}

-- The dialog to create a webhook, and what it has sent, the newest first.
pub record Creator : Type 0 where
  pub is_create_modal_visible : Bool
  pub form : CreateForm
  pub is_pending : Bool
  pub sent : List CreateData

pub data CreateField : Type 0 where
  url blockchain_id max_retries max_blocks timeout_ms : CreateField

unfoldable pub fill_create : CreateForm → CreateField → String → CreateForm
fill_create form url text = record form { url = some text }
fill_create form blockchain_id text = record form { blockchain_id = some text }
fill_create form max_retries text = record form { max_retries = some text }
fill_create form max_blocks text = record form { max_blocks = some text }
fill_create form timeout_ms text = record form { timeout_ms = some text }

pub data CreatorEvent : Type 0 where
  open_modal close_modal submit settled : CreatorEvent
  fill : CreateField → String → CreatorEvent

-- `onSubmit` of the form with the callbacks of WebhookCreator.
abbrev pub submit_create : Creator → Option CreateData → Creator
submit_create state none = record state { form = blank_create; is_create_modal_visible = false }
submit_create state (some d) = record state {
  form = blank_create;
  is_pending = true;
  sent = d ∷ state.sent;
}

unfoldable pub creator_step : Parser → Creator → CreatorEvent → Creator
unfolding fill_create
creator_step p state open_modal = record state { is_create_modal_visible = true }
creator_step p state close_modal = record state { is_create_modal_visible = false }
creator_step p state (fill field text) = record state { form = fill_create state.form field text }
creator_step p state submit =
    if state.is_pending then state else submit_create state (parse_create p state.form)
creator_step p state settled =
    if state.is_pending
    then record state { is_pending = false; is_create_modal_visible = false }
    else state

abbrev pub no_creation : Creator
no_creation = record {
  is_create_modal_visible = false;
  form = blank_create;
  is_pending = false;
  sent = [];
}

-- The dialog to edit a webhook. It is open while there is a webhook to edit; its form keeps its state
-- when it is closed.
pub record Editor : Type 0 where
  pub webhook_to_edit : Option Webhook
  pub form : EditForm
  pub is_pending : Bool
  pub sent : List (String × UpdateData)

pub data EditField : Type 0 where
  edit_url edit_max_retries edit_max_blocks edit_timeout_ms : EditField

unfoldable pub fill_edit : EditForm → EditField → String → EditForm
fill_edit form edit_url text = record form { url = some text }
fill_edit form edit_max_retries text = record form { max_retries = some text }
fill_edit form edit_max_blocks text = record form { max_blocks = some text }
fill_edit form edit_timeout_ms text = record form { timeout_ms = some text }

pub data EditorEvent : Type 0 where
  edit_webhook : Webhook → EditorEvent
  close_editor submit_edits edits_settled : EditorEvent
  fill_in : EditField → String → EditorEvent

-- `onSubmit` of the form with the callbacks of WebhooksTable.
abbrev pub submit_edit : Editor → String → Option UpdateData → Editor
submit_edit state id none = record state { form = blank_edit; webhook_to_edit = none }
submit_edit state id (some d) = record state {
  form = blank_edit;
  is_pending = true;
  sent = (id, d) ∷ state.sent;
}

abbrev pub submit_form : Parser → Editor → Option Webhook → Editor
submit_form p state none = state
submit_form p state (some webhook) =
    if state.is_pending
    then state
    else submit_edit state webhook.id (parse_edit p webhook.id state.form)

unfoldable pub editor_step : Parser → Editor → EditorEvent → Editor
unfolding fill_edit
editor_step p state (edit_webhook webhook) = record state { webhook_to_edit = some webhook }
editor_step p state close_editor = record state { webhook_to_edit = none }
editor_step p state (fill_in field text) = record state { form = fill_edit state.form field text }
editor_step p state submit_edits = submit_form p state state.webhook_to_edit
editor_step p state edits_settled =
    if state.is_pending then record state { is_pending = false; webhook_to_edit = none } else state
