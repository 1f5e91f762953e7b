-- ===== src/Dashboard/Table/Selection.antt =====
-- What is checked in the table stays within the webhooks that it shows.
use mathlib.Core.List.{append_assoc, append-nil}
use block_feed_prototype.Prelude.{
  ◌≡◌, refl, sym, ap, ◌∙◌, Bool, false, List, [], ◌∷◌, ◌++◌, String, All, ◌==◌, string_eq, arith,
}
use block_feed_prototype.Js.Map.{has, has-append, set_of_has}
use block_feed_prototype.Db.Schema.{Webhook}
use block_feed_prototype.Dashboard.Table.{
  Checkbox, Checkboxes, add_all, reset_selected, check_all, check_one, TableState, TableEvent,
  webhooks_changed, box_all, box_one, edit, editing_ended, mounted, table_step,
}

-- The boxes apart from their state, and those that the table has for some webhooks.
abbrev pub entries_of : Checkboxes → List (String × Webhook)
entries_of [] = []
entries_of ((k, v) ∷ selected) = (k, v.webhook) ∷ entries_of selected

abbrev pub boxes_for : List Webhook → List (String × Webhook)
boxes_for [] = []
boxes_for (w ∷ ws) = (w.id, w) ∷ boxes_for ws

-- No two of the webhooks have the same identifier.
abbrev pub DistinctIds : List Webhook → Type 0
DistinctIds [] = Unit
DistinctIds (w ∷ ws) = All (λ r. (w.id == r.id) ≡ false) ws × DistinctIds ws

entries_of-check_all :
    (is_checked : Bool) (selected : Checkboxes)
    → entries_of (check_all is_checked selected) ≡ entries_of selected
unfolding check_all
entries_of-check_all is_checked [] = refl
entries_of-check_all is_checked ((k, v) ∷ selected) =
    ap (◌∷◌ (k, v.webhook)) (entries_of-check_all is_checked selected)

entries_of-check_one :
    (key : String) (is_checked : Bool) (selected : Checkboxes)
    → entries_of (check_one key is_checked selected) ≡ entries_of selected
unfolding check_one
entries_of-check_one key is_checked [] = refl
entries_of-check_one key is_checked ((k, v) ∷ selected) =
    ground (arith, entries_of-check_one key is_checked selected)

entries_of-append : (xs ys : Checkboxes) → entries_of (xs ++ ys) ≡ entries_of xs ++ entries_of ys
entries_of-append [] ys = refl
entries_of-append ((k, v) ∷ xs) ys = ap (◌∷◌ (k, v.webhook)) (entries_of-append xs ys)

box_for : Webhook → Checkbox
box_for w = record { webhook = w; is_checked = false }

-- None of the webhooks has a box yet.
abbrev Fresh : List Webhook → Checkboxes → Type 0
Fresh ws selected = All (λ w. has w.id selected ≡ false) ws

Fresh-append :
    (w : Webhook) (v : Checkbox) (ws : List Webhook) (selected : Checkboxes)
    → All (λ r. (w.id == r.id) ≡ false) ws
    → Fresh ws selected
    → Fresh ws (selected ++ (w.id, v) ∷ [])
unfolding has
Fresh-append w v [] selected d f = tt
Fresh-append w v (r ∷ ws) selected d f = (
  ground (arith, has-append r.id selected ((w.id, v) ∷ [])),
  Fresh-append w v ws selected d.1 f.1,
)

entries_of-add_all :
    (ws : List Webhook) (selected : Checkboxes)
    → DistinctIds ws
    → Fresh ws selected
    → entries_of (add_all selected ws) ≡ entries_of selected ++ boxes_for ws
entries_of-add_all [] selected d f = sym (append-nil (entries_of selected))
entries_of-add_all (w ∷ ws) selected d f =
    let v : Checkbox = record { webhook = w; is_checked = false } in
    ap (λ m. entries_of (add_all m ws)) (set_of_has w.id v selected f.0)
    ∙ entries_of-add_all ws (selected ++ (w.id, v) ∷ []) d.1 (Fresh-append w v ws selected d.0 f.1)
    ∙ ap (λ t. t ++ boxes_for ws) (entries_of-append selected ((w.id, v) ∷ []))
    ∙ append_assoc (entries_of selected) ((w.id, w) ∷ []) (boxes_for ws)

none_yet : (ws : List Webhook) → Fresh ws []
unfolding has
none_yet [] = tt
none_yet (w ∷ ws) = (refl, none_yet ws)

entries_of-reset_selected :
    (ws : List Webhook) → DistinctIds ws → entries_of (reset_selected ws) ≡ boxes_for ws
unfolding reset_selected
entries_of-reset_selected ws d = entries_of-add_all ws [] d (none_yet ws)

-- What the table shows after an event.
abbrev pub shown_after : List Webhook → TableEvent → List Webhook
shown_after shown (webhooks_changed ws) = ws
shown_after shown _ = shown

unfoldable pub run : TableState → List TableEvent → TableState
run state [] = state
run state (e ∷ es) = run (table_step state e) es

unfoldable pub shown_by : List Webhook → List TableEvent → List Webhook
shown_by shown [] = shown
shown_by shown (e ∷ es) = shown_by (shown_after shown e) es

-- The page never gives the table two webhooks with one identifier.
abbrev pub Gives : TableEvent → Type 0
Gives (webhooks_changed ws) = DistinctIds ws
Gives _ = Unit

step-entries :
    (state : TableState) (shown : List Webhook) (e : TableEvent)
    → Gives e
    → entries_of state.selected ≡ boxes_for shown
    → entries_of (table_step state e).selected ≡ boxes_for (shown_after shown e)
unfolding table_step
step-entries state shown (webhooks_changed ws) g h = entries_of-reset_selected ws g
step-entries state shown (box_all is_checked) g h =
    entries_of-check_all is_checked state.selected ∙ h
step-entries state shown (box_one key is_checked) g h =
    entries_of-check_one key is_checked state.selected ∙ h
step-entries state shown (edit webhook) g h = h
step-entries state shown editing_ended g h = h

run-entries :
    (es : List TableEvent) (state : TableState) (shown : List Webhook)
    → All Gives es
    → entries_of state.selected ≡ boxes_for shown
    → entries_of (run state es).selected ≡ boxes_for (shown_by shown es)
unfolding run shown_by
run-entries [] state shown g h = h
run-entries (e ∷ es) state shown g h =
    run-entries es (table_step state e) (shown_after shown e) g.1 (step-entries state shown e g.0 h)

-- Whatever a user checks and edits and whatever the page loads, the table has exactly one box for each
-- webhook that it shows, in their order, if no two of a page have the same identifier.
pub run-mounted-entries :
    (es : List TableEvent)
    → All Gives es
    → entries_of (run mounted es).selected ≡ boxes_for (shown_by [] es)
run-mounted-entries es g = run-entries es mounted [] g refl
