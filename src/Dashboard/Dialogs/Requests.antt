-- ===== src/Dashboard/Dialogs/Requests.antt =====
-- What the dialog to create a webhook sends over a whole session.
use block_feed_prototype.Prelude.{
  ◌≡◌, Bool, true, false, List, [], ◌∷◌, String, leb, All, Option-cases, inl, inr, if◌then◌else◌,
}
use block_feed_prototype.Webhooks.Inputs.{valid_create}
use block_feed_prototype.Dashboard.Forms.{Input, Parser, parse_create, create_inputs}
use block_feed_prototype.Dashboard.Forms.Accepted.{IsBrowser, Submits, create_accepted}
use block_feed_prototype.Dashboard.Dialogs.{
  Creator, CreatorEvent, open_modal, close_modal, submit, settled, fill, submit_create,
  creator_step, no_creation,
}

unfoldable pub creator_run : Parser → Creator → List CreatorEvent → Creator
creator_run p state [] = state
creator_run p state (e ∷ es) = creator_run p (creator_step p state e) es

module _ (p : Parser) (passes : Input → String → Bool) (browser : IsBrowser p passes)
    (blockchains : List String)
    (short : All (λ id. leb (p.zod.length id) 1024 ≡ true) blockchains) where
  -- The browser submits the form only if all inputs pass.
  abbrev pub Allowed : Creator → CreatorEvent → Type 0
  Allowed state submit = Submits p passes browser (create_inputs blockchains state.form)
  Allowed state _ = Unit

  abbrev pub AllAllowed : Creator → List CreatorEvent → Type 0
  AllAllowed state [] = Unit
  AllAllowed state (e ∷ es) = Allowed state e × AllAllowed (creator_step p state e) es

  abbrev pub AllValid : Creator → Type 0
  AllValid state = All (λ d. valid_create p.zod d ≡ true) state.sent

  submit_create-AllValid :
      (state : Creator)
      → Submits p passes browser (create_inputs blockchains state.form)
      → AllValid state
      → AllValid (submit_create state (parse_create p state.form))
  submit_create-AllValid state ok h = elim (Option-cases (parse_create p state.form)) [
    | inl e ↦ rw e h
    | inr (d, e) ↦ rw e (create_accepted p passes browser blockchains state.form d short ok e, h)
  ]

  if-AllValid : (b : Bool) (s t : Creator) → AllValid s → AllValid t → AllValid (if b then s else t)
  if-AllValid true s t h k = h
  if-AllValid false s t h k = k

  step-AllValid :
      (state : Creator) (e : CreatorEvent)
      → Allowed state e
      → AllValid state
      → AllValid (creator_step p state e)
  unfolding creator_step
  step-AllValid state open_modal ok h = h
  step-AllValid state close_modal ok h = h
  step-AllValid state (fill field text) ok h = h
  step-AllValid state submit ok h =
      if-AllValid state.is_pending state _ h (submit_create-AllValid state ok h)
  step-AllValid state settled ok h = if-AllValid state.is_pending _ state h h

  run-AllValid :
      (es : List CreatorEvent) (state : Creator)
      → AllAllowed state es
      → AllValid state
      → AllValid (creator_run p state es)
  unfolding creator_run
  run-AllValid [] state ok h = h
  run-AllValid (e ∷ es) state ok h =
      run-AllValid es (creator_step p state e) ok.1 (step-AllValid state e ok.0 h)

  -- However a user opens, fills, submits and closes the dialog, every request that it sends is one that
  -- the server accepts, if the browser submits the form only with inputs that pass and no blockchain
  -- offered has too long an identifier.
  pub creations_accepted :
      (es : List CreatorEvent) → AllAllowed no_creation es → AllValid (creator_run p no_creation es)
  creations_accepted es ok = run-AllValid es no_creation ok tt
