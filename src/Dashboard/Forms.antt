-- ===== src/Dashboard/Forms.antt =====
-- apps/dashboard/src/components/home/forms: the forms to create and to edit a webhook, their inputs and
-- their parsers; webhooks-creator.tsx and the editing in webhooks-table.tsx, which submit them.
pub mod Accepted
pub mod Cleared
use block_feed_prototype.Prelude.{
  ℕ, ℤ, Bool, true, false, Option, none, some, List, [], ◌∷◌, String, if◌then◌else◌,
}
use block_feed_prototype.Db.Schema.{Webhook}
use block_feed_prototype.Webhooks.Inputs.{Zod, CreateData, UpdateData}

-- The inputs with the attributes that the browser checks before it submits a form: whether a value is
-- required, and its bounds or its options.
pub data Input : Type 0 where
  url_input : Bool → ℕ → ℕ → Input
  number_input : Bool → ℕ → ℕ → Input
  select : Bool → List String → Input

-- The parser of a number: what `z.coerce.number().int()` makes of a text.
pub record Parser : Type 0 where
  pub zod : Zod
  pub coerce_int : String → Option ℤ

-- `FormState` of each form.
pub record CreateForm : Type 0 where
  pub url : Option String
  pub blockchain_id : Option String
  pub max_retries : Option String
  pub max_blocks : Option String
  pub timeout_ms : Option String

pub record EditForm : Type 0 where
  pub url : Option String
  pub max_retries : Option String
  pub max_blocks : Option String
  pub timeout_ms : Option String

abbrev pub blank_create : CreateForm
blank_create = record {
  url = none;
  blockchain_id = none;
  max_retries = none;
  max_blocks = none;
  timeout_ms = none;
}

abbrev pub blank_edit : EditForm
blank_edit = record { url = none; max_retries = none; max_blocks = none; timeout_ms = none }

-- The inputs of both forms; only those for a new webhook are required.
abbrev pub url_field : Bool → Input
url_field required = url_input required 1 2048

abbrev pub max_blocks_field : Bool → Input
max_blocks_field required = number_input required 1 10

abbrev pub max_retries_field : Bool → Input
max_retries_field required = number_input required 0 10

abbrev pub timeout_ms_field : Bool → Input
timeout_ms_field required = number_input required 0 10000

abbrev pub blockchain_field : List String → Input
blockchain_field blockchains = select true blockchains

-- `form.f ?? ""`
abbrev pub value_of : Option String → String
value_of none = ""
value_of (some text) = text

-- The inputs of the form to create a webhook, with the values that they show.
unfoldable pub create_inputs : List String → CreateForm → List (Input × String)
create_inputs blockchains form =
    (url_field true, value_of form.url)
    ∷ (max_blocks_field true, value_of form.max_blocks)
    ∷ (max_retries_field true, value_of form.max_retries)
    ∷ (timeout_ms_field true, value_of form.timeout_ms)
    ∷ (blockchain_field blockchains, value_of form.blockchain_id)
    ∷ []

-- `form.f ?? webhook.f`
abbrev pub or_shown : Option String → String → String
or_shown none text = text
or_shown (some text) shown = text

-- The inputs of the form to edit one; `decimal` prints a number.
unfoldable pub edit_inputs : (ℤ → String) → Webhook → EditForm → List (Input × String)
edit_inputs decimal webhook form =
    (url_field false, or_shown form.url webhook.url)
    ∷ (max_blocks_field false, or_shown form.max_blocks (decimal webhook.max_blocks))
    ∷ (max_retries_field false, or_shown form.max_retries (decimal webhook.max_retries))
    ∷ (timeout_ms_field false, or_shown form.timeout_ms (decimal webhook.timeout_ms))
    ∷ []

abbrev pub and_then {ℓ κ} : {A : Type ℓ} {B : Type κ} → Option A → (A → Option B) → Option B
and_then none f = none
and_then (some a) f = f a

-- `z.…optional()` around a parser.
abbrev pub parse_optional : {A : Type 0} → (String → Option A) → Option String → Option (Option A)
parse_optional parse none = some none
parse_optional parse (some text) = and_then (parse text) (λ a. some (some a))

-- The results of the fields, if all parse.
abbrev pub make_create :
    Option String → Option String → Option ℤ → Option ℤ → Option ℤ → Option CreateData
make_create (some url) (some blockchain_id) (some max_retries) (some max_blocks) (some timeout_ms) =
    some (record {
      url = url;
      max_blocks = max_blocks;
      max_retries = max_retries;
      timeout_ms = timeout_ms;
      blockchain_id = blockchain_id;
    })
make_create _ _ _ _ _ = none

abbrev pub make_update :
    Option (Option String)
    → Option (Option ℤ)
    → Option (Option ℤ)
    → Option (Option ℤ)
    → Option UpdateData
make_update (some url) (some max_retries) (some max_blocks) (some timeout_ms) = some (record {
  url = url;
  max_blocks = max_blocks;
  max_retries = max_retries;
  timeout_ms = timeout_ms;
})
make_update _ _ _ _ = none

module _ (p : Parser) where
  -- `z.string().url()`
  abbrev pub parse_url : String → Option String
  parse_url text = if p.zod.is_url text then some text else none

  -- `zFormParser.safeParse(form)` of the form to create a webhook; a missing number is none.
  unfoldable pub parse_create : CreateForm → Option CreateData
  parse_create form =
      make_create (and_then form.url parse_url) form.blockchain_id
        (and_then form.max_retries p.coerce_int) (and_then form.max_blocks p.coerce_int)
        (and_then form.timeout_ms p.coerce_int)

  -- `zFormParser.safeParse({ id: webhook.id, ...form })` of the form to edit one.
  unfoldable pub parse_edit : String → EditForm → Option UpdateData
  parse_edit id form =
      if p.zod.is_uuid id
      then (make_update (parse_optional parse_url form.url)
          (parse_optional p.coerce_int form.max_retries)
          (parse_optional p.coerce_int form.max_blocks)
          (parse_optional p.coerce_int form.timeout_ms))
      else none
