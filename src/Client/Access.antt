-- ===== src/Client/Access.antt =====
-- Which pages the middleware shows to whom.
use block_feed_prototype.Prelude.{
  ◌≡◌, refl, ◌⊎◌, ◌↔◌, inl, inr, true, Bool-cases, Option-cases, Option, none, some, String, ◌==◌,
  string_eq, arith, subst, concat, ap, sym, ◌∙◌,
}
use block_feed_prototype.Promise.{M, Result, ok, err}
use block_feed_prototype.Client.Requests.{
  HttpRequest, ErrorBody, ExecutionResult, returned_error, fulfilled, awaited, first_error,
  request_data, requested, request_result, http_request, make_request,
}
use block_feed_prototype.Client.Middleware.{next, refuse, answered, check_page, middleware}

refuse_not-next : (url : String) (code : Option String) → ¬ (refuse url code ≡ next)
unfolding refuse
refuse_not-next url code h = ground arith

fulfilled-injective : {A : Type 0} {x y : A} → fulfilled x ≡ fulfilled y → x ≡ y
fulfilled-injective e = cc

module _ {W V D : Type 0} (fetch : HttpRequest V → M W (ExecutionResult D)) (document : String)
    (variables : V) (get_token : M W (Option String)) (origin : String) where
  -- The answer has data and no error.
  abbrev pub IsData : ExecutionResult D → Type 0
  IsData body = (first_error body.errors ≡ none) × ((d : D) × (body.data_field ≡ some d))

  -- The token is at hand, and the query is answered with data and without an error.
  abbrev pub Subscribed : W → Type 0
  Subscribed w =
      (token : Option String) × (w₁ : W) × (body : ExecutionResult D) × (w₂ : W) × (get_token w
        ≡ (ok token, w₁))
      × (fetch (http_request fetch document variables token) w₁ ≡ (ok body, w₂))
      × IsData body

  request_failed :
      (body : ExecutionResult D) (e : ErrorBody)
      → first_error body.errors ≡ some e
      → request_result body ≡ fulfilled (returned_error e.code)
  unfolding request_result
  request_failed body e h = ap (λ o. requested o body.data_field) h

  request_answered :
      (body : ExecutionResult D)
      → first_error body.errors ≡ none
      → request_result body ≡ request_data body.data_field
  unfolding request_result
  request_answered body h = ap (λ o. requested o body.data_field) h

  answered_error :
      (body : ExecutionResult D) (e : ErrorBody)
      → first_error body.errors ≡ some e
      → answered origin (request_result body)
        ≡ fulfilled (refuse (concat origin "/subscribe") e.code)
  unfolding answered
  answered_error body e h = ap (answered origin) (request_failed body e h)

  answered_without_error :
      (body : ExecutionResult D) (o : Option D)
      → first_error body.errors ≡ none
      → body.data_field ≡ o
      → answered origin (request_result body) ≡ answered origin (request_data o)
  answered_without_error body o h n =
      ap (answered origin) (request_answered body h ∙ ap request_data n)

  answered-IsData :
      (body : ExecutionResult D)
      → (answered origin (request_result body) ≡ fulfilled next) ↔ IsData body
  unfolding answered
  answered-IsData body = elim (Option-cases (first_error body.errors)) [
    | inr (e, h) ↦ (
      λ a. absurd (
          refuse_not-next (concat origin "/subscribe") e.code
            (fulfilled-injective (sym (answered_error body e h) ∙ a))),
      λ d. cc (h, d.0),
    )
    | inl h ↦ elim (Option-cases body.data_field) [
      | inl n ↦ (λ a. cc (sym (answered_without_error body none h n) ∙ a), λ d. cc (n, d.1.1))
      | inr (x, n) ↦ (λ a. (h, (x, n)), λ d. answered_without_error body (some x) h n)
    ]
  ]

  fetched :
      (r : Result (ExecutionResult D) × W)
      → (answered origin (awaited r (λ body w'. (request_result body, w'))).0 ≡ fulfilled next)
        ↔ ((body : ExecutionResult D) × (w₂ : W) × (r ≡ (ok body, w₂)) × IsData body)
  unfolding answered
  fetched (ok body, w) = (
    λ a. (body, w, refl, (answered-IsData body).0 a),
    λ h. let same : h.0 ≡ body = cc h.2 in (answered-IsData body).1 (subst IsData same h.3),
  )
  fetched (err e, w) = (λ a. cc a, λ h. cc h.2)

  token_given :
      (r : Result (Option String) × W)
      → ((awaited r (λ token w'. (
        answered origin (make_request fetch document variables token w').0,
        (make_request fetch document variables token w').1,
      ))).0
          ≡ fulfilled next)
        ↔ ((token : Option String) × (w₁ : W) × (body : ExecutionResult D) × (w₂ : W) × (r
              ≡ (ok token, w₁))
            × (fetch (http_request fetch document variables token) w₁ ≡ (ok body, w₂))
            × IsData body)
  unfolding make_request
  token_given (ok token, w₁) =
      let sent = fetched (fetch (http_request fetch document variables token) w₁) in
      (
        λ a. let (body, w₂, e, d) = sent.0 a in (token, w₁, body, w₂, refl, e, d),
        λ h. sent.1 (h.2, h.3, cc (h.4, h.5), h.6),
      )
  token_given (err e, w₁) = (λ a. cc a, λ h. cc h.4)

  check_page-next_iff :
      (w : W)
      → ((check_page fetch document variables get_token origin w).0 ≡ fulfilled next) ↔ Subscribed w
  unfolding check_page
  check_page-next_iff w = token_given (get_token w)

  -- A page is shown exactly to users who are signed in, and, but for the page to subscribe, only if the
  -- session has given its token and the query for their subscription was answered with data and without
  -- an error: not if the query, or the token, throws.
  pub middleware-next_iff :
      (user_id : Option String) (pathname : String) (w : W)
      → ((middleware fetch document variables get_token origin user_id pathname w).0
          ≡ fulfilled next)
        ↔ (((id : String) × (user_id ≡ some id))
            × (((pathname == "/subscribe") ≡ true) ⊎ Subscribed w))
  unfolding middleware
  middleware-next_iff none pathname w = (λ h. cc h, λ h. cc h.0.1)
  middleware-next_iff (some id) pathname w = elim (Bool-cases (pathname == "/subscribe")) [
    | inl e ↦ rw e (λ h. ((id, refl), inl refl), λ h. refl)
    | inr e ↦ (
      λ h. ((id, refl), inr ((check_page-next_iff w).0 (rw e at h))),
      λ h. elim h.1 [ inl t ↦ cc (e, t) | inr t ↦ rw e ((check_page-next_iff w).1 t) ],
    )
  ]
