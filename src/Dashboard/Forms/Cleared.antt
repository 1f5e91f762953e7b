-- ===== src/Dashboard/Forms/Cleared.antt =====
-- A field of the form to edit a webhook that the user empties.
use block_feed_prototype.Prelude.{
  ℤ, pos, ◌≡◌, refl, ap, ◌∙◌, Bool, false, ◌&&◌, Option, none, some, String, arith,
}
use block_feed_prototype.Db.Schema.{Webhook}
use block_feed_prototype.Webhooks.Inputs.{
  UpdateData, optional, valid_url, valid_max_retries, valid_timeout_ms, valid_update,
}
use block_feed_prototype.Webhooks.Update.{patch}
use block_feed_prototype.Dashboard.Forms.{Parser, EditForm, and_then, parse_optional, parse_edit}
use block_feed_prototype.Dashboard.Forms.Accepted.{parse_edit-some}

zero_field :
    (p : Parser) (o : Option String) (f : Option ℤ)
    → p.coerce_int "" ≡ some (pos 0)
    → o ≡ some ""
    → parse_optional p.coerce_int o ≡ some f
    → f ≡ some (pos 0)
zero_field p none f zero empty e = cc
zero_field p (some text) f zero empty e =
    let same : p.coerce_int text ≡ some (pos 0) = ap (λ o. and_then o p.coerce_int) empty ∙ zero in
    let e' : some (some (pos 0)) ≡ some f = rw same at e in cc

false_third : (a b c e : Bool) → (a && b && false && c && e) ≡ false
false_third a b c e = ground arith

-- As `Number("")` is zero, an empty field is parsed as zero: emptying the timeout and the retries sets
-- both to zero, and the server refuses the form if the maximum of blocks was emptied.
pub cleared_fields :
    (p : Parser) (id : String) (form : EditForm) (d refused : UpdateData) (r : Webhook)
    → p.coerce_int "" ≡ some (pos 0)
    → parse_edit p id (record form { timeout_ms = some ""; max_retries = some "" }) ≡ some d
    → parse_edit p id (record form { max_blocks = some "" }) ≡ some refused
    → ((patch d r).timeout_ms ≡ pos 0)
      × ((patch d r).max_retries ≡ pos 0)
      × (valid_update p.zod id refused ≡ false)
unfolding patch valid_update
cleared_fields p id form d refused r zero e e' =
    let cleared : EditForm = record form { timeout_ms = some ""; max_retries = some "" } in
    let no_blocks : EditForm = record form { max_blocks = some "" } in
    let (_, _, retries, _, timeout) = parse_edit-some p id cleared d e in
    let (_, _, _, blocks, _) = parse_edit-some p id no_blocks refused e' in
    (
      rw (zero_field p (some "") d.timeout_ms zero refl timeout) refl,
      rw (zero_field p (some "") d.max_retries zero refl retries) refl,
      rw (zero_field p (some "") refused.max_blocks zero refl blocks) (
          false_third (p.zod.is_uuid id) (optional (valid_url p.zod) refused.url)
            (optional valid_max_retries refused.max_retries)
            (optional valid_timeout_ms refused.timeout_ms)),
    )
