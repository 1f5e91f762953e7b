-- ===== src/Webhooks/FindMany/Taking.antt =====
-- The rows that a page shows, taken from the front or the back of a list, and the flags.
use mathlib.Core.List.{reverse-append, reverse-reverse}
use block_feed_prototype.Prelude.{
  ℕ, zero, suc, ◌-◌, ◌≤◌, ◌≡◌, refl, sym, ap, ◌∙◌, Bool, true, false, ◌&&◌, Option, none, some,
  List, [], ◌∷◌, ◌++◌, reverse, ltb, length, take, drop, take-append-drop, length-reverse,
  take_of_length-le, ltb→lt, string_eq, if◌then◌else◌, arith, Bool-cases, inl, inr,
}
use block_feed_prototype.Db.Schema.{Webhook}
use block_feed_prototype.Webhooks.FindMany.{
  Webhooks, all_of, passes, is_reverse, is_none, pop, oriented, paginate,
}

pop-take :
    (n : ℕ) (xs : List Webhook) → ltb n (length xs) ≡ true → pop (take (suc n) xs) ≡ take n xs
pop-take zero (x ∷ xs) h = refl
pop-take (suc n) (x ∷ []) h = ground arith
pop-take (suc n) (x ∷ y ∷ xs) h = ap (◌∷◌ x) (pop-take n (y ∷ xs) (ground arith))
pop-take n [] h = ground arith

ltb-length-take : (n : ℕ) (xs : List Webhook) → ltb n (length (take (suc n) xs)) ≡ ltb n (length xs)
ltb-length-take zero [] = refl
ltb-length-take zero (x ∷ xs) = ground arith
ltb-length-take (suc n) [] = refl
ltb-length-take (suc n) (x ∷ xs) = ground (arith, ltb-length-take n xs)

take-suc : (n : ℕ) (xs : List Webhook) → ltb n (length xs) ≡ false → take (suc n) xs ≡ take n xs
take-suc zero [] h = refl
take-suc zero (x ∷ xs) h = ground arith
take-suc (suc n) [] h = refl
take-suc (suc n) (x ∷ xs) h = ap (◌∷◌ x) (take-suc n xs (ground arith))

-- The page of a list of rows, of which the query returns one more than the limit.
abbrev pub page_of : ℕ → Option (Webhook × Bool) → List Webhook → Webhooks
page_of limit cursor rs = record {
  payload = oriented (is_reverse cursor) (take limit rs);
  pagination = record {
    has_next = if is_reverse cursor then true else ltb limit (length rs);
    has_prev =
        if is_none cursor then false else if is_reverse cursor then ltb limit (length rs) else true;
  };
}

pub paginate-take :
    (limit : ℕ) (cursor : Option (Webhook × Bool)) (rs : List Webhook)
    → paginate limit cursor (take (suc limit) rs) ≡ page_of limit cursor rs
unfolding paginate
paginate-take limit none rs =
    ground (arith, ltb-length-take limit rs, pop-take limit rs, take-suc limit rs)
paginate-take limit (some (c, true)) rs =
    ground (arith, ltb-length-take limit rs, pop-take limit rs, take-suc limit rs)
paginate-take limit (some (c, false)) rs =
    ground (arith, ltb-length-take limit rs, pop-take limit rs, take-suc limit rs)

-- The last `n` rows, taken from the back.
take-length-append : (xs ys : List Webhook) → take (length xs) (xs ++ ys) ≡ xs
take-length-append [] ys = refl
take-length-append (x ∷ xs) ys = ap (◌∷◌ x) (take-length-append xs ys)

length-drop : (n : ℕ) (xs : List Webhook) → length (drop n xs) ≡ length xs - n
length-drop zero xs = omega arith
length-drop (suc n) [] = omega arith
length-drop (suc n) (x ∷ xs) = omega (arith, length-drop n xs)

drop_zero-reverse :
    (n : ℕ) (xs : List Webhook)
    → length xs ≤ n
    → reverse (take n (reverse xs)) ≡ drop (length xs - n) xs
drop_zero-reverse n xs h =
    rw (take_of_length-le n (reverse xs) (omega (arith, length-reverse xs)), reverse-reverse)
      (let e : length xs - n ≡ 0 = omega arith in rw e refl)

reverse-take-append :
    (n : ℕ) (a b : List Webhook) → length b ≡ n → reverse (take n (reverse (a ++ b))) ≡ b
reverse-take-append n a b h =
    let size : n ≡ length (reverse b) = omega (arith, length-reverse b) in
    ap (λ t. reverse (take n t)) (reverse-append a b)
    ∙ ap (λ k. reverse (take k (reverse b ++ reverse a))) size
    ∙ ap reverse (take-length-append (reverse b) (reverse a))
    ∙ reverse-reverse b

pub reverse-take-reverse :
    (n : ℕ) (xs : List Webhook) → reverse (take n (reverse xs)) ≡ drop (length xs - n) xs
reverse-take-reverse n xs = elim (Bool-cases (ltb n (length xs))) [
  | inr e ↦ drop_zero-reverse n xs (ground arith)
  | inl e ↦
      ap (λ t. reverse (take n (reverse t))) (sym (take-append-drop (length xs - n) xs))
      ∙ reverse-take-append n (take (length xs - n) xs) (drop (length xs - n) xs)
          (omega (arith, length-drop (length xs - n) xs, ltb→lt n (length xs) e))
]

pub all_of-snoc :
    (tests : List (Option (Webhook → Bool))) (t : Option (Webhook → Bool)) (r : Webhook)
    → all_of (tests ++ t ∷ []) r ≡ (all_of tests r && passes t r)
unfolding all_of
all_of-snoc [] t r = ground arith
all_of-snoc (test ∷ tests) t r = ground (arith, all_of-snoc tests t r)
