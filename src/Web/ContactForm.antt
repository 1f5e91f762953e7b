-- ===== src/Web/ContactForm.antt =====
-- apps/web/src/components/contact: the form and the page around it. `zod.string().email()` is a
-- parameter, and so is what the server of the form answers.
use block_feed_prototype.Prelude.{
  ℕ, ◌≡◌, ◌≢◌, ◌⊎◌, refl, ap, Bool, true, false, Option, none, some, List, [], ◌∷◌, String,
  if◌then◌else◌, arith, Option-cases, inl, inr,
}

pub record FormState : Type 0 where
  pub is_loading : Bool
  pub name : Option String
  pub email : Option String
  pub message : Option String

pub record ContactData : Type 0 where
  pub name : String
  pub email : String
  pub message : String

-- `fetch` is fulfilled by a response, whatever its status, or rejected.
pub data Fetched : Type 0 where
  response : ℕ → Fetched
  rejected : Fetched

-- `state` of ContactUs: completed with or without an error, or not completed.
pub data ContactUsState : Type 0 where
  asking : ContactUsState
  thanking : ContactUsState
  sorry : ContactUsState

-- The page: what it shows, the form on it, and the requests that were sent, the newest first.
pub record Page : Type 0 where
  pub shown : ContactUsState
  pub form : FormState
  pub sent : List ContactData

pub data Event : Type 0 where
  type_name type_email type_message : String → Event
  submit : Event
  fetched : Fetched → Event

abbrev pub blank : Bool → FormState
blank is_loading = record { is_loading = is_loading; name = none; email = none; message = none }

-- `zFormParser.safeParse(state)`
unfoldable pub safe_parse : (String → Bool) → FormState → Option ContactData
safe_parse is_email state = elim state.name [
  | none ↦ none
  | some name ↦ elim state.email [
    | none ↦ none
    | some email ↦ elim state.message [
      | none ↦ none
      | some message ↦
          if is_email email
          then some (record { name = name; email = email; message = message })
          else none
    ]
  ]
]

-- The callbacks of ContactUs, by how the request ended.
abbrev pub completed : Fetched → ContactUsState
completed (response status) = thanking
completed rejected = sorry

-- `onSubmit`: the button is disabled while `isLoading` is set.
unfoldable pub on_submit : Page → Option ContactData → Page
on_submit page none = record page { shown = sorry; form = blank true }
on_submit page (some valid) = record page { form = blank true; sent = valid ∷ page.sent }

-- An answer comes only to a request that was sent.
abbrev pub on_fetched : Page → Fetched → Page
on_fetched page answer = elim page.sent [
  | [] ↦ page
  | _ ∷ _ ↦ record page { shown = completed answer; form = blank false }
]

abbrev pub unless_loading : Bool → Page → Page → Page
unless_loading true page submitted = page
unless_loading false page submitted = submitted

-- What happens to the form while it is on the page.
unfoldable pub form_step : (String → Bool) → Page → Event → Page
unfolding on_submit
form_step is_email page (type_name text) = record page {
  form = record page.form { name = some text };
}
form_step is_email page (type_email text) = record page {
  form = record page.form { email = some text };
}
form_step is_email page (type_message text) = record page {
  form = record page.form { message = some text };
}
form_step is_email page submit =
    unless_loading page.form.is_loading page (on_submit page (safe_parse is_email page.form))
form_step is_email page (fetched answer) = on_fetched page answer

abbrev pub while_asking : ContactUsState → Page → Page → Page
while_asking asking page changed = changed
while_asking _ page changed = page

-- Once completed, the page shows no form any more.
unfoldable pub step : (String → Bool) → Page → Event → Page
step is_email page e = while_asking page.shown page (form_step is_email page e)

abbrev pub initial : Page
initial = record { shown = asking; form = blank false; sent = [] }

module _ (is_email : String → Bool) where
  unfoldable pub run : Page → List Event → Page
  run page [] = page
  run page (e ∷ es) = run (step is_email page e) es

  -- No request was sent, and the page does not thank for one; or one was, of a valid address, and the
  -- form is loading while it is shown.
  abbrev pub IsFair : Page → Type 0
  IsFair page =
      ((page.sent ≡ []) × (page.shown ≢ thanking))
      ⊎ ((d : ContactData) × (page.sent ≡ d ∷ [])
          × (is_email d.email ≡ true)
          × ((page.shown ≡ asking) → page.form.is_loading ≡ true))

  safe_parse_valid :
      (state : FormState) (d : ContactData)
      → safe_parse is_email state ≡ some d
      → is_email d.email ≡ true
  unfolding safe_parse
  safe_parse_valid state d e = ground arith

  on_submit-IsFair :
      (page : Page)
      → page.shown ≡ asking
      → IsFair page
      → page.form.is_loading ≡ false
      → IsFair (on_submit page (safe_parse is_email page.form))
  unfolding on_submit
  on_submit-IsFair page asks h idle = elim h [
    | inr (d, _, _, loads) ↦ cc (loads asks, idle)
    | inl none_sent ↦ elim (Option-cases (safe_parse is_email page.form)) [
      | inl e ↦ rw e (inl (none_sent.0, λ x. cc x))
      | inr (d, e) ↦
          rw e (inr (d, ap (◌∷◌ d) none_sent.0, safe_parse_valid page.form d e, λ _. refl))
    ]
  ]

  unless_loading-IsFair :
      (loading : Bool) (page submitted : Page)
      → IsFair page
      → (loading ≡ false → IsFair submitted)
      → IsFair (unless_loading loading page submitted)
  unless_loading-IsFair true page submitted h k = h
  unless_loading-IsFair false page submitted h k = k refl

  while_asking-IsFair :
      (shown : ContactUsState) (page changed : Page)
      → IsFair page
      → (shown ≡ asking → IsFair changed)
      → IsFair (while_asking shown page changed)
  while_asking-IsFair asking page changed h k = k refl
  while_asking-IsFair thanking page changed h k = h
  while_asking-IsFair sorry page changed h k = h

  on_fetched-IsFair :
      (page : Page) (answer : Fetched) (sent : List ContactData)
      → page.sent ≡ sent
      → IsFair page
      → IsFair (on_fetched page answer)
  on_fetched-IsFair page answer sent e h = ground arith

  form_step-IsFair :
      (page : Page) (e : Event)
      → page.shown ≡ asking
      → IsFair page
      → IsFair (form_step is_email page e)
  unfolding form_step
  form_step-IsFair page (type_name text) asks h = h
  form_step-IsFair page (type_email text) asks h = h
  form_step-IsFair page (type_message text) asks h = h
  form_step-IsFair page submit asks h =
      unless_loading-IsFair page.form.is_loading page _ h (on_submit-IsFair page asks h)
  form_step-IsFair page (fetched answer) asks h = on_fetched-IsFair page answer page.sent refl h

  step-IsFair : (page : Page) (e : Event) → IsFair page → IsFair (step is_email page e)
  unfolding step
  step-IsFair page e h =
      while_asking-IsFair page.shown page _ h (λ asks. form_step-IsFair page e asks h)

  run-IsFair : (es : List Event) (page : Page) → IsFair page → IsFair (run page es)
  unfolding run
  run-IsFair [] page h = h
  run-IsFair (e ∷ es) page h = run-IsFair es (step is_email page e) (step-IsFair page e h)

  -- However a visitor types, submits and is answered, one request is sent at most, to a valid address,
  -- and the page thanks only for a request that was sent.
  pub run-initial-IsFair : (es : List Event) → IsFair (run initial es)
  run-initial-IsFair es = run-IsFair es initial (inl (refl, λ e. cc e))
