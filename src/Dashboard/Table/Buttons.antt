-- ===== src/Dashboard/Table/Buttons.antt =====
-- What the buttons of the table send.
use block_feed_prototype.Prelude.{
  ◌≤◌, ◌<◌, ◌≡◌, refl, ap, subst, Bool, true, false, not, none, some, List, [], String, length, All,
  nat_eq, string_eq, if◌then◌else◌, ◌||◌, arith, in_array, All-of,
}
use block_feed_prototype.Js.Map.{values}
use block_feed_prototype.Db.Schema.{Webhook}
use block_feed_prototype.Db.Table.{In}
use block_feed_prototype.Db.Order.{All-of_In}
use block_feed_prototype.Webhooks.Inputs.{Zod, valid_ids}
use block_feed_prototype.Dashboard.Paging.{page_limit}
use block_feed_prototype.Dashboard.Table.{
  Checkbox, TableProps, Pending, TableEvent, mounted, checked, get_checked_webhook_ids,
  can_activate, can_delete, activate_button, delete_button, on_activate, on_delete, Button,
  activate_selected, delete_selected, clicked,
}
use block_feed_prototype.Dashboard.Table.Selection.{run, shown_by, Gives, run-mounted-entries}
use block_feed_prototype.Dashboard.Table.Checked.{
  IsSent, checked-All, length-checked_le, length-boxes_for, length-ids_of, every-ids_of, keep-held,
  checked-IsChecked, All-inactive, ids_of-All, checked-IsComplete, zip-IsSent,
}

sent-some :
    (can : Bool) (ids sent : List String)
    → (if not can then none else some ids) ≡ some sent
    → (can ≡ true) × (ids ≡ sent)
sent-some true ids sent e = (refl, cc)
sent-some false ids sent e = cc

-- The identifiers are those of the boxes that are checked, none missing, and the server takes them.
pub record Sends (zod : Zod) (P : Checkbox → Type 0) (boxes : List Checkbox) (shown : List Webhook)
    (ids : List String) : Type 0 where
  pub valid : valid_ids zod ids ≡ true
  pub some_sent : 0 < length ids
  pub few : length ids ≤ page_limit
  pub sent : All (λ id. (v : Checkbox) × (v.webhook.id ≡ id) × IsSent boxes shown P v) ids
  pub complete : All (λ v. (not v.is_checked || in_array v.webhook.id ids) ≡ true) boxes

-- What a button is for.
abbrev pub Target : Button → Checkbox → Type 0
Target delete_selected v = Unit
Target activate_selected v = v.webhook.is_active ≡ 0

module _ (zod : Zod) (es : List TableEvent) (gives : All Gives es)
    (uuids : All (λ (w : Webhook). zod.is_uuid w.id ≡ true) (shown_by [] es))
    (few : length (shown_by [] es) ≤ page_limit) where
  sends :
      (P : Checkbox → Type 0)
      → All P (checked (run mounted es).selected)
      → 0 < length (checked (run mounted es).selected)
      → Sends zod P
          (values (run mounted es).selected)
          (shown_by [] es)
          (get_checked_webhook_ids (run mounted es).selected)
  unfolding get_checked_webhook_ids valid_ids
  sends P h some_checked =
      let selected = (run mounted es).selected in
      let shown = shown_by [] es in
      let boxes = run-mounted-entries es gives in
      let within : length (checked selected) ≤ page_limit =
        omega (arith, length-checked_le selected, ap length boxes, length-boxes_for shown) in
      let all_uuids =
        every-ids_of zod.is_uuid (checked selected)
          (checked-All (λ w. zod.is_uuid w.id ≡ true) shown selected boxes uuids) in
      record {
        valid = rw all_uuids (ground (arith, within, length-ids_of (checked selected)));
        some_sent = omega (arith, length-ids_of (checked selected));
        few = omega (arith, length-ids_of (checked selected));
        sent = ids_of-All (IsSent (values selected) shown P) (checked selected) (
            zip-IsSent P (values selected) shown (checked selected)
              (keep-held (λ v. v.is_checked) (values selected)) (checked-IsChecked selected)
              (checked-All (λ w. In w shown) shown selected boxes
                (All-of_In (λ w. In w shown) shown (λ r i. i)))
              h);
        complete = checked-IsComplete (values selected);
      }

  delete-Sends :
      (props : TableProps) (pending : Pending) (ids : List String)
      → on_delete props pending (run mounted es).selected ≡ some ids
      → Sends zod (λ v. Unit) (values (run mounted es).selected) (shown_by [] es) ids
  unfolding on_delete can_delete delete_button
  delete-Sends props pending ids e =
      let (can, same) = sent-some _ _ ids e in
      subst (Sends zod (λ v. Unit) (values (run mounted es).selected) (shown_by [] es)) same (
        sends (λ v. Unit) (All-of (λ v. Unit) (λ v. tt) (checked (run mounted es).selected))
          (ground (arith, can)))

  activate-Sends :
      (props : TableProps) (pending : Pending) (ids : List String)
      → on_activate props pending (run mounted es).selected ≡ some ids
      → Sends zod
          (λ v. v.webhook.is_active ≡ 0)
          (values (run mounted es).selected)
          (shown_by [] es)
          ids
  unfolding on_activate can_activate activate_button
  activate-Sends props pending ids e =
      let (can, same) = sent-some _ _ ids e in
      subst
        (Sends zod (λ v. v.webhook.is_active ≡ 0) (values (run mounted es).selected)
          (shown_by [] es))
        same
        (sends (λ v. v.webhook.is_active ≡ 0) (All-inactive _ (ground (arith, can)))
          (ground (arith, can)))

  -- If a click of the button to delete or to activate asks the server for anything, then for exactly the
  -- webhooks whose boxes in the table are checked: one identifier at least and 25 at most, that the
  -- server accepts, of webhooks that are shown, and for the button to activate, only of webhooks shown
  -- as inactive. This is after any use of the table, if a page holds 25 webhooks at most, no two with
  -- the same identifier, all UUIDs.
  pub clicked-Sends :
      (button : Button) (props : TableProps) (pending : Pending) (ids : List String)
      → clicked button props pending (run mounted es).selected ≡ some ids
      → Sends zod (Target button) (values (run mounted es).selected) (shown_by [] es) ids
  clicked-Sends delete_selected = delete-Sends
  clicked-Sends activate_selected = activate-Sends
