-- ===== src/Webhooks/Ownership.antt =====
-- The handlers under apps/dashboard/src/server/schema/webhooks touch the rows of the requesting
-- user and of nobody else.
use block_feed_prototype.Prelude.{
  sym, ap, ◌∙◌, All-of, pos, ℕ, ◌+◌, ◌≡◌, refl, Bool, true, false, not, ◌&&◌, Option, none, some,
  List, [], ◌∷◌, map, String, ◌==◌, string_eq, nat_eq, in_array, length, keep, All, arith,
  Bool-cases, inl, inr, if◌then◌else◌,
}
use block_feed_prototype.Promise.{OnOk, Post, OnOk-bind}
use block_feed_prototype.Db.Schema.{Webhook, webhooks_clash}
use block_feed_prototype.Db.Table.{IsTable, In, Found, update_rows, delete_rows}
use block_feed_prototype.Db.Rows.{
  keep-update_rows, map-update_rows, keep-delete_rows, delete_rows-All, length-delete_rows,
}
use block_feed_prototype.Db.Effects.{update_post, delete_post}
use block_feed_prototype.Graphql.Context.{Context}
use block_feed_prototype.Webhooks.Inputs.{UpdateData}
use block_feed_prototype.Webhooks.FindOne
use block_feed_prototype.Webhooks.FindOne.{or_missing}
use block_feed_prototype.Webhooks.Update
use block_feed_prototype.Webhooks.Update.{patch, has_changes, or_kept}
use block_feed_prototype.Webhooks.Remove

-- Whether the row belongs to somebody else.
abbrev pub of_others : String → Webhook → Bool
of_others user_id r = not (r.customer_id == user_id)

abbrev pub owned : String → String → Webhook → Bool
owned user_id id r = r.customer_id == user_id && r.id == id

abbrev pub owned_among : String → List String → Webhook → Bool
owned_among user_id ids r = r.customer_id == user_id && in_array r.id ids

-- The columns of a webhook that the dashboard never updates with `webhookUpdate`: the others blanked.
abbrev pub fixed_columns : Webhook → Webhook
fixed_columns r = record r { url = ""; max_blocks = pos 0; max_retries = pos 0; timeout_ms = pos 0 }

abbrev pub unowned : String → String → Webhook → Bool
unowned user_id id r = not (owned user_id id r)

abbrev pub unowned_among : String → List String → Webhook → Bool
unowned_among user_id ids r = not (owned_among user_id ids r)

-- What a column of the updated rows holds: the value asked for, or else what it held before.
abbrev value_for : {A : Type 0} → Option A → A → A
value_for (some a) old = a
value_for none old = old

abbrev Column :
    {A : Type 0} → String → String → List Webhook → List Webhook → (Webhook → A) → Option A → Type 0
Column user_id id before after column asked =
    map column (keep (owned user_id id) after)
    ≡ map (λ r. value_for asked (column r)) (keep (owned user_id id) before)

-- What an update of the user's webhook with that identifier does to the table: it counts the rows
-- that it found, gives them the new values, changes no other row, adds and removes none, and keeps
-- the fixed columns.
pub record IsPatched (user_id id : String) (d : UpdateData) (before after : List Webhook) (n : ℕ)
    : Type 0 where
  pub counted : n ≡ (if has_changes d then length (keep (owned user_id id) before) else 0)
  pub others : keep (unowned user_id id) after ≡ keep (unowned user_id id) before
  pub patched : keep (owned user_id id) after ≡ map (patch d) (keep (owned user_id id) before)
  pub url : Column user_id id before after (λ r. r.url) d.url
  pub max_blocks : Column user_id id before after (λ r. r.max_blocks) d.max_blocks
  pub max_retries : Column user_id id before after (λ r. r.max_retries) d.max_retries
  pub timeout_ms : Column user_id id before after (λ r. r.timeout_ms) d.timeout_ms
  pub fixed : map fixed_columns after ≡ map fixed_columns before

-- What a removal does to the table: exactly the user's rows among the identifiers are gone, and
-- counted.
pub record IsRemoval (user_id : String) (ids : List String) (before after : List Webhook) (n : ℕ)
    : Type 0 where
  pub counted : n + length after ≡ length before
  pub others : keep (unowned_among user_id ids) after ≡ keep (unowned_among user_id ids) before
  pub gone : All (λ r. owned_among user_id ids r ≡ false) after

owned-update_rows :
    (user_id id : String) (d : UpdateData) (rows : List Webhook)
    → keep (owned user_id id) (update_rows (patch d) (owned user_id id) rows)
      ≡ map (patch d) (keep (owned user_id id) rows)
unfolding patch
owned-update_rows user_id id d [] = refl
owned-update_rows user_id id d (r ∷ rows) = elim (Bool-cases (owned user_id id r)) [
  | inl e ↦ rw (e, e) (ap (◌∷◌ (patch d r)) (owned-update_rows user_id id d rows))
  | inr e ↦ rw (e, e) (owned-update_rows user_id id d rows)
]

patch_nothing : (d : UpdateData) (r : Webhook) → has_changes d ≡ false → patch d r ≡ r
unfolding patch
patch_nothing d r e = ground arith

map-patch_nothing :
    (d : UpdateData) (rows : List Webhook) → has_changes d ≡ false → map (patch d) rows ≡ rows
map-patch_nothing d [] e = refl
map-patch_nothing d (r ∷ rows) e =
    rw (patch_nothing d r e) (ap (◌∷◌ r) (map-patch_nothing d rows e))

kept_value : {A : Type 0} (asked : Option A) (old : A) → or_kept asked old ≡ value_for asked old
kept_value none old = refl
kept_value (some a) old = refl

map-column :
    {A : Type 0} (f : Webhook → Webhook) (column : Webhook → A) (asked : Option A)
    (rows : List Webhook)
    → ((r : Webhook) → column (f r) ≡ value_for asked (column r))
    → map column (map f rows) ≡ map (λ r. value_for asked (column r)) rows
map-column f column asked [] h = refl
map-column f column asked (r ∷ rows) h = rw (h r, map-column f column asked rows h) refl

-- The columns of the rows that `patch` has changed.
patched-Column :
    {A : Type 0} (user_id id : String) (d : UpdateData) (before after : List Webhook)
    (column : Webhook → A) (asked : Option A)
    → keep (owned user_id id) after ≡ map (patch d) (keep (owned user_id id) before)
    → ((r : Webhook) → column (patch d r) ≡ value_for asked (column r))
    → Column user_id id before after column asked
patched-Column user_id id d before after column asked e h =
    ap (map column) e ∙ map-column (patch d) column asked (keep (owned user_id id) before) h

-- The description of an update, from the rows that it has given new values.
make-IsPatched :
    (user_id id : String) (d : UpdateData) (before after : List Webhook) (n : ℕ)
    → n ≡ (if has_changes d then length (keep (owned user_id id) before) else 0)
    → keep (unowned user_id id) after ≡ keep (unowned user_id id) before
    → keep (owned user_id id) after ≡ map (patch d) (keep (owned user_id id) before)
    → map fixed_columns after ≡ map fixed_columns before
    → IsPatched user_id id d before after n
unfolding patch
make-IsPatched user_id id d before after n counted others patched fixed = record {
  counted = counted;
  others = others;
  patched = patched;
  url =
      patched-Column user_id id d before after (λ r. r.url) d.url patched
        (λ r. kept_value d.url r.url);
  max_blocks =
      patched-Column user_id id d before after (λ r. r.max_blocks) d.max_blocks patched
        (λ r. kept_value d.max_blocks r.max_blocks);
  max_retries =
      patched-Column user_id id d before after (λ r. r.max_retries) d.max_retries patched
        (λ r. kept_value d.max_retries r.max_retries);
  timeout_ms =
      patched-Column user_id id d before after (λ r. r.timeout_ms) d.timeout_ms patched
        (λ r. kept_value d.timeout_ms r.timeout_ms);
  fixed = fixed;
}

update_rows-IsPatched :
    (user_id id : String) (d : UpdateData) (rows : List Webhook)
    → has_changes d ≡ true
    → IsPatched user_id id d rows
        (update_rows (patch d) (owned user_id id) rows)
        (length (keep (owned user_id id) rows))
unfolding patch
update_rows-IsPatched user_id id d rows h =
    make-IsPatched user_id id d rows (update_rows (patch d) (owned user_id id) rows)
      (length (keep (owned user_id id) rows)) (rw h refl)
      (keep-update_rows (unowned user_id id) (owned user_id id) (patch d) (λ r e. ground arith)
        rows)
      (owned-update_rows user_id id d rows)
      (map-update_rows fixed_columns (owned user_id id) (patch d) (λ r. refl) rows)

delete_rows-IsRemoval :
    (user_id : String) (ids : List String) (rows : List Webhook)
    → IsRemoval user_id ids rows
        (delete_rows (owned_among user_id ids) rows)
        (length (keep (owned_among user_id ids) rows))
delete_rows-IsRemoval user_id ids rows = record {
  counted = length-delete_rows (owned_among user_id ids) rows;
  others =
      keep-delete_rows (unowned_among user_id ids) (owned_among user_id ids) (λ r e. ground arith)
        rows;
  gone = delete_rows-All (owned_among user_id ids) rows;
}

module _ {W Cluster : Type 0} (ctx : Context W Cluster) (rows : W → List Webhook)
    (table : IsTable ctx.providers.webhook rows webhooks_clash) where
  -- A webhook that `find-one` returns is a row of the table that the user owns, with the identifier
  -- asked for.
  pub find_one-owned :
      (id : String) (w : W)
      → OnOk
          (FindOne.handler ctx id w).0
          (λ r. In r (rows w) × (r.customer_id ≡ ctx.user_id) × (r.id ≡ id))
  unfolding FindOne.handler
  find_one-owned id w =
      OnOk-bind (Found (owned ctx.user_id id) (rows w))
        (λ r. In r (rows w) × (r.customer_id ≡ ctx.user_id) × (r.id ≡ id))
        (ctx.providers.webhook.find_first (owned ctx.user_id id)) (or_missing id) w
        (table.find_first_value (owned ctx.user_id id) w) answer
    where
      answer :
          (o : Option Webhook) (w' : W)
          → Found (owned ctx.user_id id) (rows w) o
          → OnOk
              (or_missing id o w').0
              (λ r. In r (rows w) × (r.customer_id ≡ ctx.user_id) × (r.id ≡ id))
      answer none w' h = tt
      answer (some r) w' h = (h.0, ground arith, ground arith)

  -- An update that returns has given the row of the user with that identifier the URL, the maximum of
  -- blocks, the retries and the timeout that were asked for, each where it was, and has left the
  -- others of these as they were: it counts the rows that it found (none, if nothing was asked for), changes no other
  -- row, adds and removes none, and changes no column but the URL and the three limits.
  pub update-IsPatched :
      (id : String) (d : UpdateData) (w : W)
      → Post (Update.handler ctx id d w) (λ n w'. IsPatched ctx.user_id id d (rows w) (rows w') n)
  unfolding Update.handler
  update-IsPatched id d w = elim (Bool-cases (has_changes d)) [
    | inr e ↦ rw e (
        make-IsPatched ctx.user_id id d (rows w) (rows w) 0 (rw e refl) refl
          (sym (map-patch_nothing d (keep (owned ctx.user_id id) (rows w)) e)) refl)
    | inl e ↦
        let q = update_rows-IsPatched ctx.user_id id d (rows w) e in
        rw e (
          update_post ctx.providers.webhook rows webhooks_clash table (patch d)
            (owned ctx.user_id id) w (λ n after. IsPatched ctx.user_id id d (rows w) after n) q)
  ]

  -- A removal that returns has taken out exactly the user's rows among the identifiers, counts them,
  -- and leaves all other rows as they were, in order.
  pub remove-IsRemoval :
      (ids : List String) (w : W)
      → Post (Remove.handler ctx ids w) (λ n w'. IsRemoval ctx.user_id ids (rows w) (rows w') n)
  unfolding Remove.handler in_array
  remove-IsRemoval [] w = record {
    counted = omega arith;
    others = refl;
    gone = All-of (λ r. owned_among ctx.user_id [] r ≡ false) (λ r. ground arith) (rows w);
  }
  remove-IsRemoval (id ∷ ids) w =
      delete_post ctx.providers.webhook rows webhooks_clash table
        (owned_among ctx.user_id (id ∷ ids)) w
        (λ n after. IsRemoval ctx.user_id (id ∷ ids) (rows w) after n)
        (delete_rows-IsRemoval ctx.user_id (id ∷ ids) (rows w))
