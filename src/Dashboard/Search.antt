-- ===== src/Dashboard/Search.antt =====
-- apps/dashboard/src/components/home/forms/webhook-search.form.tsx, and what the page in
-- apps/dashboard/src/app/page.tsx makes of a search.
use block_feed_prototype.Prelude.{
  ℕ, Bool, false, Option, none, some, String, ◌==◌, string_eq, nat_eq, if◌then◌else◌,
}

pub data WebhookStatus : Type 0 where
  inactive active : WebhookStatus

-- The values of the enumeration.
abbrev pub status_text : WebhookStatus → String
status_text inactive = "inactive"
status_text active = "active"

-- `formatWebhookStatus`
abbrev pub format_webhook_status : ℕ → String
format_webhook_status is_active =
    if is_active == 1 then status_text active else status_text inactive

-- The state of the form, and what its parser makes of it: fields that are missing or texts.
pub record SearchForm : Type 0 where
  pub blockchain : Option String
  pub status : Option String
  pub url : Option String

abbrev pub blank : SearchForm
blank = record { blockchain = none; status = none; url = none }

-- What the user types or picks.
pub data SearchEvent : Type 0 where
  type_url : String → SearchEvent
  pick_status : String → SearchEvent
  pick_blockchain : String → SearchEvent

unfoldable pub change : SearchForm → SearchEvent → SearchForm
change form (type_url text) = record form { url = some text }
change form (pick_status text) = record form { status = some text }
change form (pick_blockchain text) = record form { blockchain = some text }

-- `filters` of the page.
pub record PageFilters : Type 0 where
  pub blockchain : Option String
  pub is_active : Option Bool
  pub url : Option String

abbrev pub no_filters : PageFilters
no_filters = record { blockchain = none; is_active = none; url = none }

-- `text != null && text !== "" ? text : undefined`
abbrev pub filled : Option String → Option String
filled none = none
filled (some text) = if text == "" then none else some text

-- `status == null && status !== "" ? status === WebhookStatus.ACTIVE : undefined`
abbrev pub status_filter : Option String → Option Bool
status_filter none = some false
status_filter (some text) = none

-- `onSubmit` of the page.
unfoldable pub search_filters : SearchForm → PageFilters
search_filters form = record {
  blockchain = filled form.blockchain;
  is_active = status_filter form.status;
  url = filled form.url;
}

-- The form's `onSubmit`: a form that does not parse is searched without filters.
abbrev pub submit_search : (SearchForm → Option SearchForm) → SearchForm → PageFilters
submit_search safe_parse form = elim (safe_parse form) [
  | none ↦ no_filters
  | some parsed ↦ search_filters parsed
]
