-- ===== src/Web/TypeWriter.antt =====
-- apps/web/src/components/shared/animated/typewriter.tsx. A string is the list of its code units.
use block_feed_prototype.Prelude.{
  ℕ, zero, suc, ◌+◌, ◌<◌, ◌≡◌, refl, ap, ◌∙◌, true, false, Option, none, some, List, [], ◌∷◌, ◌++◌,
  ltb, length, length-append, if◌then◌else◌, arith,
}
use mathlib.Core.List.{append_assoc, append-nil}
use native.Mathlib.Nat.{suc-add, zero-add, add-zero}

pub record TypeWriterState : Type 0 where
  pub word_idx : ℕ
  pub word : List ℕ

pub record TypeWriterProps : Type 0 where
  pub typing_delay_ms : ℕ
  pub typing_pause_ms : ℕ
  pub words : List (List ℕ)

-- `xs.at(n)` for an index that is not negative
abbrev pub at {ℓ} : {A : Type ℓ} → List A → ℕ → Option A
at [] n = none
at (x ∷ xs) zero = some x
at (x ∷ xs) (suc n) = at xs n

-- What the effect of a rendering does: it sets the state at once, or a timer that will.
pub data Effect : Type 0 where
  set_state : TypeWriterState → Effect
  set_timeout : ℕ → TypeWriterState → Effect

abbrev typed : TypeWriterState → Option ℕ → List ℕ
typed state none = state.word
typed state (some next_char) = state.word ++ next_char ∷ []

abbrev next : Effect → TypeWriterState
next (set_state now) = now
next (set_timeout delay later) = later

at-append : (done left : List ℕ) (unit : ℕ) → at (done ++ unit ∷ left) (length done) ≡ some unit
at-append [] left unit = refl
at-append (u ∷ done) left unit = at-append done left unit

is_shorter :
    (done left : List ℕ) (unit : ℕ) → ltb (length done) (length (done ++ unit ∷ left)) ≡ true
is_shorter done left unit = ground (arith, length-append done (unit ∷ left))

not_shorter : (n : ℕ) → ltb n n ≡ false
not_shorter n = ground arith

-- One tick for each unit of each word, and one for each word.
abbrev pub cycle : List (List ℕ) → ℕ
cycle [] = 0
cycle (w ∷ ws) = suc (length w) + cycle ws

module _ (props : TypeWriterProps) where
  unfoldable pub effect_for : TypeWriterState → Option (List ℕ) → Effect
  effect_for state none = set_state (record { word_idx = 0; word = [] })
  effect_for state (some fully_typed) =
      if ltb (length state.word) (length fully_typed)
      then set_timeout props.typing_delay_ms (record {
        word_idx = state.word_idx;
        word = typed state (at fully_typed (length state.word));
      })
      else set_timeout props.typing_pause_ms (record { word_idx = state.word_idx + 1; word = [] })

  unfoldable pub effect : TypeWriterState → Effect
  unfolding effect_for
  effect state = effect_for state (at props.words state.word_idx)

  -- The next state: of the timer that the effect has set, or the one it sets at once.
  unfoldable pub tick : TypeWriterState → TypeWriterState
  unfolding effect
  tick state = next (effect state)

  unfoldable pub ticks : ℕ → TypeWriterState → TypeWriterState
  ticks zero state = state
  ticks (suc n) state = ticks n (tick state)

  ticks-add : (m n : ℕ) (state : TypeWriterState) → ticks (m + n) state ≡ ticks n (ticks m state)
  unfolding ticks
  ticks-add zero n state = rw zero-add refl
  ticks-add (suc m) n state = rw suc-add (ticks-add m n (tick state))

  abbrev pub initial : TypeWriterState
  initial = record { word_idx = 0; word = [] }

  -- One more unit of the word is typed.
  tick_typing :
      (i : ℕ) (done left : List ℕ) (unit : ℕ)
      → at props.words i ≡ some (done ++ unit ∷ left)
      → tick (record { word_idx = i; word = done })
        ≡ record { word_idx = i; word = done ++ unit ∷ [] }
  unfolding tick effect effect_for
  tick_typing i done left unit h = rw (h, is_shorter done left unit, at-append done left unit) refl

  tick_typed :
      (i : ℕ) (w : List ℕ)
      → at props.words i ≡ some w
      → tick (record { word_idx = i; word = w }) ≡ record { word_idx = i + 1; word = [] }
  unfolding tick effect effect_for
  tick_typed i w h = rw (h, not_shorter (length w)) refl

  tick_last :
      (i : ℕ) → at props.words i ≡ none → tick (record { word_idx = i; word = [] }) ≡ initial
  unfolding tick effect effect_for
  tick_last i h = rw h refl

  type_word :
      (i : ℕ) (done left : List ℕ)
      → at props.words i ≡ some (done ++ left)
      → ticks (length left) (record { word_idx = i; word = done })
        ≡ record { word_idx = i; word = done ++ left }
  unfolding ticks
  type_word i done [] h = rw append-nil refl
  type_word i done (unit ∷ left) h =
      ap (ticks (length left)) (tick_typing i done left unit h)
      ∙ rw append_assoc at (type_word i (done ++ unit ∷ []) left (rw append_assoc h))

  -- One tick for each unit of a word, and one that moves on.
  one_word :
      (i : ℕ) (w : List ℕ)
      → at props.words i ≡ some w
      → ticks (suc (length w)) (record { word_idx = i; word = [] })
        ≡ record { word_idx = i + 1; word = [] }
  unfolding ticks
  one_word i w h =
      let state : TypeWriterState = record { word_idx = i; word = [] } in
      let split : suc (length w) ≡ length w + 1 = omega arith in
      ap (λ n. ticks n state) split
      ∙ ticks-add (length w) 1 state
      ∙ ap tick (type_word i [] w h)
      ∙ tick_typed i w h

  -- The words from an index on.
  abbrev IsFrom : ℕ → List (List ℕ) → Type 0
  IsFrom i ws = (j : ℕ) → j < length ws → at props.words (i + j) ≡ at ws j

  IsFrom-cons : (i : ℕ) (w : List ℕ) (ws : List (List ℕ)) → IsFrom i (w ∷ ws) → IsFrom (i + 1) ws
  IsFrom-cons i w ws h j lt =
      let e : i + 1 + j ≡ i + suc j = omega arith in ap (at props.words) e ∙ h (suc j) (omega arith)

  first_word :
      (i : ℕ) (w : List ℕ) (ws : List (List ℕ)) → IsFrom i (w ∷ ws) → at props.words i ≡ some w
  first_word i w ws h = rw add-zero at (h 0 (omega arith))

  type_words :
      (i : ℕ) (ws : List (List ℕ))
      → IsFrom i ws
      → ticks (cycle ws) (record { word_idx = i; word = [] })
        ≡ record { word_idx = i + length ws; word = [] }
  unfolding ticks
  type_words i [] h = rw add-zero refl
  type_words i (w ∷ ws) h =
      let e : i + 1 + length ws ≡ i + suc (length ws) = omega arith in
      ticks-add (suc (length w)) (cycle ws) (record { word_idx = i; word = [] })
      ∙ ap (ticks (cycle ws)) (one_word i w (first_word i w ws h))
      ∙ type_words (i + 1) ws (IsFrom-cons i w ws h)
      ∙ ap (λ n. record { word_idx = n; word = [] }) e

  abbrev Shows : ℕ → List (List ℕ) → ℕ → List ℕ → Type 0
  Shows i ws j w =
      (n : ℕ) × (n < cycle ws)
      × (ticks n (record { word_idx = i; word = [] }) ≡ record { word_idx = i + j; word = w })

  Shows-word :
      (i : ℕ) (ws : List (List ℕ)) (j : ℕ) (w : List ℕ)
      → IsFrom i ws
      → at ws j ≡ some w
      → Shows i ws j w
  Shows-word i [] j w h e = cc
  Shows-word i (v ∷ ws) zero w h e = (
    length v,
    omega arith,
    type_word i [] v (first_word i v ws h)
        ∙ rw add-zero (let same : v ≡ w = cc in ap (λ u. record { word_idx = i; word = u }) same),
  )
  Shows-word i (v ∷ ws) (suc j) w h e =
      let (n, lt, shown) = Shows-word (i + 1) ws j w (IsFrom-cons i v ws h) e in
      let same : i + 1 + j ≡ i + suc j = omega arith in
      (
        suc (length v) + n,
        omega arith,
        ticks-add (suc (length v)) n (record { word_idx = i; word = [] })
            ∙ ap (ticks n) (one_word i v (first_word i v ws h))
            ∙ shown
            ∙ ap (λ k. record { word_idx = k; word = w }) same,
      )

  at_end : (ws : List (List ℕ)) → at ws (length ws) ≡ none
  at_end [] = refl
  at_end (w ∷ ws) = at_end ws

  all_words : IsFrom 0 props.words
  all_words j lt = rw zero-add refl

  -- Every word is typed out to its end within one cycle, which takes one tick for each unit and one
  -- more for each word, and a tick after the cycle the first word begins again.
  pub types_all :
      (i : ℕ) (w : List ℕ)
      → at props.words i ≡ some w
      → ((n : ℕ) × (n < cycle props.words) × (ticks n initial ≡ record { word_idx = i; word = w }))
        × (ticks (cycle props.words + 1) initial ≡ initial)
  unfolding ticks
  types_all i w h = (
    rw zero-add at (Shows-word 0 props.words i w all_words h),
    ticks-add (cycle props.words) 1 initial
        ∙ ap tick (type_words 0 props.words all_words)
        ∙ rw zero-add (tick_last (length props.words) (at_end props.words)),
  )
