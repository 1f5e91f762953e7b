-- ===== src/Dashboard/Paging/Blocks.antt =====
-- The list of a user's webhooks in blocks of the length of a page, and where the cursors of a block
-- point.
use mathlib.Core.List.{append_assoc}
use native.Mathlib.Nat.{zero-add}
use block_feed_prototype.Prelude.{
  ℕ, zero, suc, ◌+◌, ◌-◌, ◌≤◌, ◌<◌, ◌≡◌, ◌⊎◌, refl, sym, ap, ◌∙◌, Bool, true, false, none, some,
  List, [], ◌∷◌, ◌++◌, ltb, length, take, drop, length-append, length-take, subst, take-append-drop,
  ltb→lt, string_eq, if◌then◌else◌, arith, inl, inr,
}
use block_feed_prototype.Db.Schema.{Webhook}
use block_feed_prototype.Webhooks.FindMany.{Webhooks}
use block_feed_prototype.Dashboard.Paging.{
  PageParam, initial_page_param, first_id, last_id, get_next_page_param, get_previous_page_param,
}

module _ {ℓ} {A : Type ℓ} where
  pub drop-append-cons :
      (pre post : List A) (c : A) → drop (suc (length pre)) (pre ++ c ∷ post) ≡ post
  drop-append-cons [] post c = refl
  drop-append-cons (x ∷ pre) post c = drop-append-cons pre post c

  take-length-append : (xs ys : List A) → take (length xs) (xs ++ ys) ≡ xs
  take-length-append [] ys = refl
  take-length-append (x ∷ xs) ys = ap (◌∷◌ x) (take-length-append xs ys)

  -- The last rows of the first list.
  pub take-drop-append :
      (o n : ℕ) (pre ys : List A) → o + n ≡ length pre → take n (drop o (pre ++ ys)) ≡ drop o pre
  take-drop-append zero n pre ys e =
      let e' : n ≡ length pre = omega arith in
      ap (λ m. take m (pre ++ ys)) e' ∙ take-length-append pre ys
  take-drop-append (suc o) n [] ys e = absurd (omega arith)
  take-drop-append (suc o) n (x ∷ pre) ys e = take-drop-append o n pre ys (omega arith)

  pub length-drop : (n : ℕ) (xs : List A) → length (drop n xs) ≡ length xs - n
  length-drop zero xs = omega arith
  length-drop (suc n) [] = omega arith
  length-drop (suc n) (x ∷ xs) = omega (arith, length-drop n xs)

  -- The last of the first rows, if there are as many.
  pub split_last :
      (n : ℕ) (xs : List A)
      → n < length xs
      → (pre : List A) × (c : A) × (post : List A) × (take (suc n) xs ≡ pre ++ c ∷ [])
        × (xs ≡ pre ++ c ∷ post)
        × (length pre ≡ n)
  split_last n [] lt = absurd (omega arith)
  split_last zero (x ∷ xs) lt = ([], x, xs, refl, refl, refl)
  split_last (suc n) (x ∷ xs) lt =
      let (pre, c, post, first, whole, size) = split_last n xs (omega arith) in
      (x ∷ pre, c, post, ap (◌∷◌ x) first, ap (◌∷◌ x) whole, ap suc size)

  pub split_at :
      (n : ℕ) (xs : List A)
      → n < length xs
      → (pre : List A) × (c : A) × (post : List A) × (drop n xs ≡ c ∷ post)
        × (xs ≡ pre ++ c ∷ post)
        × (length pre ≡ n)
  split_at n [] lt = absurd (omega arith)
  split_at zero (x ∷ xs) lt = ([], x, xs, refl, refl, refl)
  split_at (suc n) (x ∷ xs) lt =
      let (pre, c, post, rest, whole, size) = split_at n xs (omega arith) in
      (x ∷ pre, c, post, rest, ap (◌∷◌ x) whole, ap suc size)

last_id-append : (pre : List Webhook) (c : Webhook) → last_id (pre ++ c ∷ []) ≡ c.id
last_id-append [] c = refl
last_id-append (x ∷ []) c = refl
last_id-append (x ∷ y ∷ pre) c = last_id-append (y ∷ pre) c

if-some {ℓ} :
    {A : Type ℓ} (b : Bool) (x y : A) → (if b then some x else none) ≡ some y → (b ≡ true) × (x ≡ y)
if-some true x y e = (refl, cc)
if-some false x y e = cc

module _ (limit : ℕ) (s : List Webhook) where
  -- How many webhooks stand before a page.
  abbrev pub offset : ℕ → ℕ
  offset zero = 0
  offset (suc k) = offset k + limit

  abbrev pub IsReached : ℕ → Type 0
  IsReached k = (k ≡ 0) ⊎ (offset k < length s)

  -- The page of a number, counted from zero: its webhooks and its flags.
  pub record IsPage (k : ℕ) (page : Webhooks) : Type 0 where
    pub payload : page.payload ≡ take limit (drop (offset k) s)
    pub has_next : page.pagination.has_next ≡ ltb (offset (suc k)) (length s)
    pub has_prev : page.pagination.has_prev ≡ ltb 0 (offset k)
    pub reached : IsReached k

  -- Where the parameter of a query points: to the first page, behind the last webhook of the page
  -- before, or ahead of the first one of the page after.
  pub data Stop : PageParam → ℕ → Type 0 where
    start : Stop initial_page_param 0
    behind :
        (pre post : List Webhook) (c : Webhook) (k : ℕ)
        → s ≡ pre ++ c ∷ post
        → suc (length pre) ≡ offset k
        → offset k < length s
        → Stop (record { reverse = false; id = c.id }) k
    ahead :
        (pre post : List Webhook) (c : Webhook) (k : ℕ)
        → s ≡ pre ++ c ∷ post
        → length pre ≡ offset (suc k)
        → Stop (record { reverse = true; id = c.id }) k

  predecessor : (k : ℕ) → 0 < offset k → (j : ℕ) × (k ≡ suc j)
  predecessor zero lt = absurd (omega arith)
  predecessor (suc j) lt = (j, refl)

  reached_lt : (k : ℕ) → IsReached k → 0 < offset k → offset k < length s
  reached_lt zero h lt = absurd (omega arith)
  reached_lt (suc j) (inl e) lt = cc
  reached_lt (suc j) (inr h) lt = h

  pub next-Stop :
      (k : ℕ) (page : Webhooks) (param : PageParam)
      → 1 ≤ limit
      → IsPage k page
      → get_next_page_param page (page ∷ []) ≡ some param
      → Stop param (suc k)
  unfolding get_next_page_param
  next-Stop k page param some_rows h e =
      let (more, made) = if-some page.pagination.has_next _ param e in
      let far : offset k + limit < length s = ltb→lt _ _ (sym h.has_next ∙ more) in
      let (pre, c, post, shown, rest, size) =
        split_last (limit - 1) (drop (offset k) s) (omega (arith, length-drop (offset k) s)) in
      let full : suc (limit - 1) ≡ limit = omega arith in
      let last : last_id page.payload ≡ c.id =
        ap last_id (h.payload ∙ ap (λ n. take n (drop (offset k) s)) (sym full) ∙ shown)
        ∙ last_id-append pre c in
      let whole : s ≡ (take (offset k) s ++ pre) ++ c ∷ post =
        sym (take-append-drop (offset k) s)
        ∙ ap (◌++◌ (take (offset k) s)) rest
        ∙ sym (append_assoc (take (offset k) s) pre (c ∷ post)) in
      subst (λ p. Stop p (suc k)) (ap (λ i. record { reverse = false; id = i }) (sym last) ∙ made)
        (behind (take (offset k) s ++ pre) post c (suc k) whole
          (omega (arith, length-append (take (offset k) s) pre, length-take (offset k) s)) far)

  pub previous-Stop :
      (k : ℕ) (page : Webhooks) (param : PageParam)
      → 1 ≤ limit
      → IsPage k page
      → get_previous_page_param page (page ∷ []) ≡ some param
      → (j : ℕ) × (k ≡ suc j) × Stop param j
  unfolding get_previous_page_param
  previous-Stop k page param some_rows h e =
      let (more, made) = if-some page.pagination.has_prev _ param e in
      let (j, number) = predecessor k (ltb→lt _ _ (sym h.has_prev ∙ more)) in
      let (pre, c, post, rest, whole, size) =
        split_at (offset k) s (reached_lt k h.reached (ltb→lt _ _ (sym h.has_prev ∙ more))) in
      let first : first_id page.payload ≡ c.id = ap first_id (
        h.payload
        ∙ ap (take limit) rest
        ∙ ap (λ n. take n (c ∷ post)) (let full : limit ≡ suc (limit - 1) = omega arith in full)) in
      (
        j,
        number,
        subst (λ p. Stop p j) (ap (λ i. record { reverse = true; id = i }) (sym first) ∙ made)
            (ahead pre post c j whole (size ∙ ap offset number)),
      )

  pub start-IsPage :
      (page : Webhooks)
      → page.payload ≡ take limit s
      → page.pagination.has_next ≡ ltb limit (length s)
      → page.pagination.has_prev ≡ false
      → IsPage 0 page
  start-IsPage page shown more none_before = record {
    payload = shown;
    has_next = rw zero-add more;
    has_prev = none_before;
    reached = inl refl;
  }

  module _ (pre post : List Webhook) (c : Webhook) (k : ℕ) (whole : s ≡ pre ++ c ∷ post) where
    size : length s ≡ length pre + suc (length post)
    size = ap length whole ∙ length-append pre (c ∷ post)

    pub behind-IsPage :
        (page : Webhooks)
        → suc (length pre) ≡ offset k
        → offset k < length s
        → page.payload ≡ take limit post
        → page.pagination.has_next ≡ ltb limit (length post)
        → page.pagination.has_prev ≡ true
        → IsPage k page
    behind-IsPage page at_last far shown more before = record {
      payload =
          shown
          ∙ ap (take limit) (
              sym (
                ap (λ n. drop n s) (sym at_last)
                ∙ ap (drop (suc (length pre))) whole
                ∙ drop-append-cons pre post c));
      has_next = more ∙ ground (arith, size);
      has_prev = before ∙ ground arith;
      reached = inr far;
    }

    pub ahead-IsPage :
        (page : Webhooks)
        → 1 ≤ limit
        → length pre ≡ offset (suc k)
        → page.payload ≡ drop (length pre - limit) pre
        → page.pagination.has_prev ≡ ltb limit (length pre)
        → page.pagination.has_next ≡ true
        → IsPage k page
    ahead-IsPage page some_rows at_first shown before more = record {
      payload =
          shown
          ∙ ap (λ n. drop n pre) (let e : length pre - limit ≡ offset k = omega arith in e)
          ∙ sym (take-drop-append (offset k) limit pre (c ∷ post) (omega arith))
          ∙ ap (λ t. take limit (drop (offset k) t)) (sym whole);
      has_next = more ∙ ground (arith, size);
      has_prev = before ∙ ground arith;
      reached = inr (omega (arith, size));
    }
