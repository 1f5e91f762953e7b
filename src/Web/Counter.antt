-- ===== src/Web/Counter.antt =====
-- apps/web/src/components/shared/animated/counter.tsx. The numbers to count are natural; `power` is
-- `Math.pow` over the type of the delays.
use block_feed_prototype.Prelude.{
  ℕ, zero, suc, ◌+◌, ◌≤◌, ◌≡◌, refl, ap, ◌∙◌, Bool, true, false, List, [], ◌∷◌, leb, if◌then◌else◌,
  arith,
}

pub record CounterProps (Delay : Type 0) : Type 0 where
  pub start : ℕ
  pub final : ℕ
  pub speed_constant : Delay

-- `state.num`, and what `useOnScreen` says of the element.
pub record CounterState : Type 0 where
  pub num : ℕ
  pub is_visible : Bool

-- What the effect of a rendering does: it sets a timer for the next state, sets the state at once, or
-- returns.
pub data Effect (Delay State : Type 0) : Type 0 where
  set_timeout : Delay → State → Effect Delay State
  set_state : State → Effect Delay State
  rest : Effect Delay State

-- The timer goes off, or the observer reports whether the element is on the screen.
pub data Event : Type 0 where
  timeout : Event
  observed : Bool → Event

module _ {Delay : Type 0} (power : Delay → ℕ → Delay) (props : CounterProps Delay) where
  unfoldable pub effect : CounterState → Effect Delay ℕ
  effect state =
      if state.is_visible
      then (if leb props.final state.num
          then rest
          else set_timeout (power props.speed_constant state.num) (state.num + 1))
      else if leb props.final state.num
      then set_state props.start
      else rest

  abbrev pub fire : CounterState → Effect Delay ℕ → CounterState
  fire state (set_timeout delay num) = record state { num = num }
  fire state _ = state

  abbrev pub flush : CounterState → Effect Delay ℕ → CounterState
  flush state (set_state num) = record state { num = num }
  flush state _ = state

  -- After every change the component is rendered and its effect runs.
  unfoldable pub step : CounterState → Event → CounterState
  unfolding effect
  step state timeout = fire state (effect state)
  step state (observed is_visible) =
      let seen : CounterState = record state { is_visible = is_visible } in flush seen (effect seen)

  unfoldable pub run : CounterState → List Event → CounterState
  run state [] = state
  run state (e ∷ es) = run (step state e) es

  abbrev pub initial : CounterState
  initial = record { num = props.start; is_visible = false }

  abbrev pub InRange : CounterState → Type 0
  InRange state = (props.start ≤ state.num) × (state.num ≤ props.final)

  step-InRange :
      (state : CounterState) (e : Event)
      → props.start ≤ props.final
      → InRange state
      → InRange (step state e)
  unfolding step effect
  step-InRange state timeout le h = ground arith
  step-InRange state (observed is_visible) le h = ground arith

  run-InRange :
      (es : List Event) (state : CounterState)
      → props.start ≤ props.final
      → InRange state
      → InRange (run state es)
  unfolding run
  run-InRange [] state le h = h
  run-InRange (e ∷ es) state le h = run-InRange es (step state e) le (step-InRange state e le h)

  -- Whatever the timer and the screen do, the number shown lies between the one to start from and the
  -- one to count up to, if those are in order.
  pub run-initial-InRange : (es : List Event) → props.start ≤ props.final → InRange (run initial es)
  run-initial-InRange es le = run-InRange es initial le (omega arith, le)

  abbrev pub timeouts : ℕ → List Event
  timeouts zero = []
  timeouts (suc n) = timeout ∷ timeouts n

  not_yet : (n k : ℕ) → n + suc k ≡ props.final → leb props.final n ≡ false
  not_yet n k e = ground arith

  step_visible :
      (n k : ℕ)
      → n + suc k ≡ props.final
      → step (record { num = n; is_visible = true }) timeout
        ≡ record { num = n + 1; is_visible = true }
  unfolding step effect
  step_visible n k e = rw (not_yet n k e) refl

  count_up :
      (k n : ℕ)
      → n + k ≡ props.final
      → run (record { num = n; is_visible = true }) (timeouts k)
        ≡ record { num = props.final; is_visible = true }
  unfolding run
  count_up zero n e =
      let same : n ≡ props.final = omega arith in
      ap (λ m. record { num = m; is_visible = true }) same
  count_up (suc k) n e =
      ap (λ s. run s (timeouts k)) (step_visible n k e) ∙ count_up k (n + 1) (omega arith)

  -- While the element stays on the screen, the number reaches the one to count up to after as many
  -- timers as are missing, and no timer is set then.
  pub count_to_final :
      (n missing : ℕ)
      → n + missing ≡ props.final
      → let last = run (record { num = n; is_visible = true }) (timeouts missing) in
        (last.num ≡ props.final) × (effect last ≡ rest)
  unfolding effect
  count_to_final n missing e = rw (count_up missing n e) (refl, ground arith)
