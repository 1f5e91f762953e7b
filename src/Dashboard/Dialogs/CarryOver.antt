-- ===== src/Dashboard/Dialogs/CarryOver.antt =====
-- What was typed for one webhook, when another one is edited next.
use block_feed_prototype.Prelude.{◌≡◌, refl, false, some, ◌∷◌}
use block_feed_prototype.Db.Schema.{Webhook}
use block_feed_prototype.Webhooks.Inputs.{UpdateData}
use block_feed_prototype.Dashboard.Forms.{Parser, parse_edit}
use block_feed_prototype.Dashboard.Dialogs.{
  Editor, edit_webhook, close_editor, submit_edits, editor_step,
}

-- If the dialog is closed without submitting and opened for another webhook, then submitting sends for
-- that webhook what was typed before, if it parses and no request is under way.
pub edits_carry_over :
    (p : Parser) (state : Editor) (other : Webhook) (d : UpdateData)
    → state.is_pending ≡ false
    → parse_edit p other.id state.form ≡ some d
    → (editor_step p
        (editor_step p (editor_step p state close_editor) (edit_webhook other))
        submit_edits).sent
      ≡ (other.id, d) ∷ state.sent
unfolding editor_step
edits_carry_over p state other d idle e = rw (idle, e) refl
