-- ===== src/StripeWebhook/Verified.antt =====
-- Which requests the plugin forwards to the stream.
use block_feed_prototype.Prelude.{◌≡◌, refl, inl, inr, Option, none, some, String}
use block_feed_prototype.Promise.{M, Result, ok, err, Failure, Result-cases, continue, pure}
use block_feed_prototype.StripeWebhook.Events.{Event}
use block_feed_prototype.StripeWebhook.Plugin.{Response, checked, get_event, respond, on_request}

module _ {W : Type 0} (construct_event : String → String → String → Result Event)
    (produce : Event → M W String) (secret : String) where
  -- The request has a signature and a body, and Stripe's client accepts them as this event.
  abbrev pub IsVerified : Option String → Option String → Event → Type 0
  IsVerified sig body event =
      (s : String) × (b : String) × (sig ≡ some s)
      × (body ≡ some b)
      × (construct_event b s secret ≡ ok event)

  -- How a request ends, with its result and the state it leaves: it is none of Stripe's; it is refused;
  -- its event, and no other, was produced; or producing it failed.
  pub data Outcome (sig body : Option String) (w : W) (r : Result (Option Response) × W)
      : Type 0 where
    not_stripe : sig ≡ none → r ≡ (ok none, w) → Outcome sig body w r
    refused :
        (msg : String)
        → ¬ (sig ≡ none)
        → ((event : Event) → ¬ IsVerified sig body event)
        → r ≡ (ok (some (record { status = 400; msg = some msg })), w)
        → Outcome sig body w r
    forwarded :
        (event : Event) (id : String) (w' : W)
        → IsVerified sig body event
        → produce event w ≡ (ok id, w')
        → r ≡ (ok (some (record { status = 200; msg = none })), w')
        → Outcome sig body w r
    failed :
        (event : Event) (e : Failure) (w' : W)
        → IsVerified sig body event
        → produce event w ≡ (err e, w')
        → r ≡ (err e, w')
        → Outcome sig body w r

  produced-Outcome :
      (s b : String) (event : Event) (w : W) (p : Result String × W)
      → construct_event b s secret ≡ ok event
      → produce event w ≡ p
      → Outcome
          (some s)
          (some b)
          w
          (continue p (λ id. pure (some (record { status = 200; msg = none }))))
  produced-Outcome s b event w (ok id, w') v e = forwarded event id w' (s, b, refl, refl, v) e refl
  produced-Outcome s b event w (err x, w') v e = failed event x w' (s, b, refl, refl, v) e refl

  unverified :
      (s b : String) (e : Failure) (event : Event)
      → construct_event b s secret ≡ err e
      → ¬ IsVerified (some s) (some b) event
  unverified s b e event h (s', b', se, be, v) = cc (h, v, se, be)

  -- Every request ends in one of four ways. Without a signature it goes on and changes nothing. With one
  -- that Stripe's client does not accept for the body, or without a body, it is refused with status
  -- 400 and changes nothing. Otherwise the event that Stripe's client has read from the body is put on
  -- the stream, once and nothing else, and the request is answered with status 200; or putting it there
  -- failed, and so does the request.
  pub on_request-Outcome :
      (sig body : Option String) (w : W)
      → Outcome sig body w (on_request construct_event produce secret sig body w)
  unfolding on_request get_event respond checked
  on_request-Outcome none body w = not_stripe refl refl
  on_request-Outcome (some s) none w =
      refused "bad request body" (λ e. cc e) (λ event v. cc v.3) refl
  on_request-Outcome (some s) (some b) w = elim (Result-cases (construct_event b s secret)) [
    | inr (e, h) ↦ rw h (
        refused "webhook signature verification failed" (λ e. cc e)
          (λ event. unverified s b e event h) refl)
    | inl (event, h) ↦ rw h (produced-Outcome s b event w (produce event w) h refl)
  ]
