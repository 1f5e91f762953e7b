-- ===== src/Dashboard/Forms/Accepted.antt =====
-- What the forms submit, against what the handlers of the server accept.
use block_feed_prototype.Prelude.{
  ℕ, ℤ, between, ◌≡◌, refl, subst, Bool, true, false, ◌&&◌, Option, none, some, List, String, leb,
  All, ◌==◌, string_eq, arith, Bool-cases, inl, inr,
}
use block_feed_prototype.Db.Schema.{Webhook}
use block_feed_prototype.Db.Table.{In}
use block_feed_prototype.Db.Rows.{In-All}
use block_feed_prototype.Webhooks.Inputs.{
  CreateData, UpdateData, optional, valid_url, valid_create, valid_update,
}
use block_feed_prototype.Dashboard.Forms.{
  Input, url_input, number_input, select, Parser, CreateForm, EditForm, url_field, blockchain_field,
  value_of, and_then, make_create, make_update, parse_optional, parse_url, parse_create, parse_edit,
  create_inputs, edit_inputs, or_shown,
}

abbrev pub is_required : Input → Bool
is_required (url_input required lo hi) = required
is_required (number_input required lo hi) = required
is_required (select required options) = required

-- What a browser checks before it submits a form: a required value is not empty, and a value that is
-- not empty keeps the bounds of its input or is one of the options.
pub record IsBrowser (p : Parser) (passes : Input → String → Bool) : Type 0 where
  pub required :
      (i : Input) (text : String)
      → passes i text ≡ true
      → is_required i ≡ true
      → (text == "") ≡ false
  pub url :
      (required : Bool) (lo hi : ℕ) (text : String)
      → passes (url_input required lo hi) text ≡ true
      → (text == "") ≡ false
      → (leb lo (p.zod.length text) && leb (p.zod.length text) hi) ≡ true
  pub number :
      (required : Bool) (lo hi : ℕ) (text : String) (z : ℤ)
      → passes (number_input required lo hi) text ≡ true
      → (text == "") ≡ false
      → p.coerce_int text ≡ some z
      → between lo hi z ≡ true
  pub option :
      (required : Bool) (options : List String) (text : String)
      → passes (select required options) text ≡ true
      → (text == "") ≡ false
      → In text options

make_create-some :
    (url id : Option String) (retries blocks timeout : Option ℤ) (d : CreateData)
    → make_create url id retries blocks timeout ≡ some d
    → (url ≡ some d.url)
      × (id ≡ some d.blockchain_id)
      × (retries ≡ some d.max_retries)
      × (blocks ≡ some d.max_blocks)
      × (timeout ≡ some d.timeout_ms)
make_create-some (some url) (some id) (some retries) (some blocks) (some timeout) d e = ground arith
make_create-some _ _ _ _ _ d e = cc

make_update-some :
    (url : Option (Option String)) (retries blocks timeout : Option (Option ℤ)) (d : UpdateData)
    → make_update url retries blocks timeout ≡ some d
    → (url ≡ some d.url)
      × (retries ≡ some d.max_retries)
      × (blocks ≡ some d.max_blocks)
      × (timeout ≡ some d.timeout_ms)
make_update-some (some url) (some retries) (some blocks) (some timeout) d e = ground arith
make_update-some _ _ _ _ d e = cc

parsed-some :
    {A : Type 0} (o : Option A) (a : A)
    → and_then o (λ b. some (some b)) ≡ some (some a)
    → o ≡ some a
parsed-some none a e = cc
parsed-some (some b) a e = cc

leb_zero : (n : ℕ) → leb 0 n ≡ true
leb_zero n = ground arith

parse_url-some :
    (p : Parser) (text url : String)
    → parse_url p text ≡ some url
    → (p.zod.is_url url ≡ true) × (text ≡ url)
parse_url-some p text url e = ground arith

pub parse_edit-some :
    (p : Parser) (id : String) (form : EditForm) (d : UpdateData)
    → parse_edit p id form ≡ some d
    → (p.zod.is_uuid id ≡ true)
      × (parse_optional (parse_url p) form.url ≡ some d.url)
      × (parse_optional p.coerce_int form.max_retries ≡ some d.max_retries)
      × (parse_optional p.coerce_int form.max_blocks ≡ some d.max_blocks)
      × (parse_optional p.coerce_int form.timeout_ms ≡ some d.timeout_ms)
unfolding parse_edit
parse_edit-some p id form d e = elim (Bool-cases (p.zod.is_uuid id)) [
  | inr f ↦ absurd (let e' : none ≡ some d = rw f at e in cc)
  | inl t ↦
      let (url, retries, blocks, timeout) = make_update-some _ _ _ _ d (rw t at e) in
      (t, url, retries, blocks, timeout)
]

module _ (p : Parser) (passes : Input → String → Bool) (browser : IsBrowser p passes) where
  short_id :
      (blockchains : List String) (id : String)
      → All (λ id. leb (p.zod.length id) 1024 ≡ true) blockchains
      → passes (blockchain_field blockchains) id ≡ true
      → leb (p.zod.length id) 1024 ≡ true
  short_id blockchains id short ok =
      In-All (λ id. leb (p.zod.length id) 1024 ≡ true) blockchains short
        (browser.option true blockchains id ok
          (browser.required (blockchain_field blockchains) id ok refl))

  url_valid :
      (required : Bool) (text url : String)
      → passes (url_field required) text ≡ true
      → (text == "") ≡ false
      → parse_url p text ≡ some url
      → valid_url p.zod url ≡ true
  url_valid required text url ok filled e =
      let (is_url, same) = parse_url-some p text url e in
      rw is_url (
        subst (λ t. (leb 1 (p.zod.length t) && leb (p.zod.length t) 2048) ≡ true) same
          (browser.url required 1 2048 text ok filled))

  required_url :
      (o : Option String) (url : String)
      → passes (url_field true) (value_of o) ≡ true
      → and_then o (parse_url p) ≡ some url
      → valid_url p.zod url ≡ true
  required_url none url ok e = cc
  required_url (some text) url ok e =
      url_valid true text url ok (browser.required (url_field true) text ok refl) e

  -- The number of a required input.
  number_valid :
      (lo hi : ℕ) (o : Option String) (z : ℤ)
      → passes (number_input true lo hi) (value_of o) ≡ true
      → and_then o p.coerce_int ≡ some z
      → between lo hi z ≡ true
  number_valid lo hi none z ok e = cc
  number_valid lo hi (some text) z ok e =
      browser.number true lo hi text z ok (browser.required (number_input true lo hi) text ok refl)
        e

  -- The browser lets a form with these inputs be submitted.
  abbrev pub Submits : List (Input × String) → Type 0
  Submits inputs = All (λ (i : Input × String). passes i.0 i.1 ≡ true) inputs

  -- Whatever the form to create a webhook sends, the server accepts: if the browser lets the form be
  -- submitted and its parser takes it, and no blockchain offered has too long an identifier.
  pub create_accepted :
      (blockchains : List String) (form : CreateForm) (d : CreateData)
      → All (λ id. leb (p.zod.length id) 1024 ≡ true) blockchains
      → Submits (create_inputs blockchains form)
      → parse_create p form ≡ some d
      → valid_create p.zod d ≡ true
  unfolding parse_create valid_create create_inputs
  create_accepted blockchains form d short
        (url_ok, (blocks_ok, (retries_ok, (timeout_ok, (id_ok, _))))) e =
      let (url, id, retries, blocks, timeout) = make_create-some _ _ _ _ _ d e in
      let id_short : leb (p.zod.length d.blockchain_id) 1024 ≡ true =
        short_id blockchains d.blockchain_id short (rw id at id_ok) in
      rw
        (
          required_url form.url d.url url_ok url,
          number_valid 1 10 form.max_blocks d.max_blocks blocks_ok blocks,
          number_valid 0 10 form.max_retries d.max_retries retries_ok retries,
          number_valid 0 10000 form.timeout_ms d.timeout_ms timeout_ok timeout,
          leb_zero (p.zod.length d.blockchain_id),
          id_short,
        )
        refl

  -- A field that was not typed into, or was not left empty.
  abbrev pub NotEmptied : Option String → Type 0
  NotEmptied none = Unit
  NotEmptied (some text) = (text == "") ≡ false

  optional_url :
      (o : Option String) (shown : String) (url : Option String)
      → passes (url_field false) (or_shown o shown) ≡ true
      → NotEmptied o
      → parse_optional (parse_url p) o ≡ some url
      → optional (valid_url p.zod) url ≡ true
  optional_url o shown none ok filled e = refl
  optional_url none shown (some url) ok filled e = cc
  optional_url (some text) shown (some url) ok filled e =
      url_valid false text url ok filled (parsed-some (parse_url p text) url e)

  optional_number :
      (lo hi : ℕ) (o : Option String) (shown : String) (z : Option ℤ)
      → passes (number_input false lo hi) (or_shown o shown) ≡ true
      → NotEmptied o
      → parse_optional p.coerce_int o ≡ some z
      → optional (between lo hi) z ≡ true
  optional_number lo hi o shown none ok filled e = refl
  optional_number lo hi none shown (some z) ok filled e = cc
  optional_number lo hi (some text) shown (some z) ok filled e =
      browser.number false lo hi text z ok filled (parsed-some (p.coerce_int text) z e)

  -- Whatever the form to edit a webhook sends, the server accepts, if the browser lets it be submitted,
  -- its parser takes it and no field was emptied.
  pub edit_accepted :
      (decimal : ℤ → String) (webhook : Webhook) (form : EditForm) (d : UpdateData)
      → Submits (edit_inputs decimal webhook form)
      → NotEmptied form.url
        × NotEmptied form.max_blocks
        × NotEmptied form.max_retries
        × NotEmptied form.timeout_ms
      → parse_edit p webhook.id form ≡ some d
      → valid_update p.zod webhook.id d ≡ true
  unfolding valid_update edit_inputs
  edit_accepted decimal webhook form d (url_ok, (blocks_ok, (retries_ok, (timeout_ok, _)))) kept e =
      let (uuid, url, retries, blocks, timeout) = parse_edit-some p webhook.id form d e in
      rw
        (
          uuid,
          optional_url form.url webhook.url d.url url_ok kept.0 url,
          optional_number 1 10 form.max_blocks (decimal webhook.max_blocks) d.max_blocks blocks_ok
              kept.1 blocks,
          optional_number 0 10 form.max_retries (decimal webhook.max_retries) d.max_retries
              retries_ok kept.2 retries,
          optional_number 0 10000 form.timeout_ms (decimal webhook.timeout_ms) d.timeout_ms
              timeout_ok kept.3 timeout,
        )
        refl
