-- ===== src/Promise.antt =====
-- Asynchronous code: a promise is settled by a value or by a failure, and every call threads the
-- state of the world that the services (database, caches, remote interfaces) share.
use block_feed_prototype.Prelude.{ℕ, ◌≡◌, refl, ◌⊎◌, inl, inr, String, ◌∙◌}

-- The codes of apps/dashboard/src/utils/enums/graphql-error.enum.ts
pub data GraphQlErrorCode : Type 0 where
  internal_server_error unauthorized bad_request : GraphQlErrorCode
  invalid_subscription_error not_subscribed_error : GraphQlErrorCode

pub record GraphQlError : Type 0 where
  pub code : GraphQlErrorCode
  pub status : ℕ
  pub msg : String

-- What `throw` and a rejected promise carry: an error of the interface, or any other one.
pub data Failure : Type 0 where
  graphql : GraphQlError → Failure
  other : String → Failure

pub data Result {ℓ} (A : Type ℓ) : Type ℓ where
  ok : A → Result A
  err : Failure → Result A

-- What holds of a value, if the promise is fulfilled.
abbrev pub OnOk {ℓ κ} : {A : Type ℓ} → Result A → (A → Type κ) → Type κ
OnOk (ok a) P = P a
OnOk (err e) P = Unit

abbrev pub M : Type 0 → Type 0 → Type 0
M W A = W → Result A × W

abbrev pub pure {ℓ} : {W : Type ℓ} {A : Type 0} → A → W → Result A × W
pure a w = (ok a, w)

abbrev pub throw {ℓ} : {W : Type ℓ} {A : Type 0} → Failure → W → Result A × W
throw e w = (err e, w)

abbrev pub continue : {W A B : Type 0} → Result A × W → (A → M W B) → Result B × W
continue (ok a, w) f = f a w
continue (err e, w) f = (err e, w)

infixl 5 ◌>>=◌ ◌>>◌
abbrev pub ◌>>=◌ : {W A B : Type 0} → M W A → (A → M W B) → M W B
◌>>=◌ m f w = continue (m w) f

abbrev pub ◌>>◌ : {W B : Type 0} → M W (Unit {0}) → M W B → M W B
m >> k = m >>= λ _. k

-- What an `await` that did not throw has seen.
pub continue-eq-ok :
    {W A B : Type 0} (r : Result A × W) (f : A → M W B) {b : B} {w' : W}
    → continue r f ≡ (ok b, w')
    → (a : A) × (w : W) × (r ≡ (ok a, w)) × (f a w ≡ (ok b, w'))
continue-eq-ok (ok a, w) f h = (a, w, refl, h)
continue-eq-ok (err e, w) f h = cc

pub OnOk-any {ℓ} : {A : Type ℓ} (r : Result A) → OnOk r (λ _. Unit {0})
OnOk-any (ok a) = tt
OnOk-any (err e) = tt

pub OnOk-map :
    {A : Type 0} (P Q : A → Type 0) (r : Result A) → ((a : A) → P a → Q a) → OnOk r P → OnOk r Q
OnOk-map P Q (ok a) f h = f a h
OnOk-map P Q (err e) f h = tt

-- A call that leaves a view of the world as it is, whether it throws or not.
abbrev pub Keeps : {W A X : Type 0} → (W → X) → M W A → Type 0
Keeps {W} view m = (w : W) → view (m w).1 ≡ view w

pub Keeps-pure : {W A X : Type 0} (view : W → X) (a : A) → Keeps view (pure a)
Keeps-pure view a w = refl

pub Keeps-throw :
    {W X : Type 0} (A : Type 0) (view : W → X) (e : Failure) → Keeps {A = A} view (throw e)
Keeps-throw A view e w = refl

continue-Keeps :
    {W A B X : Type 0} (view : W → X) (r : Result A × W) (f : A → M W B)
    → ((a : A) → Keeps view (f a))
    → view (continue r f).1 ≡ view r.1
continue-Keeps view (ok a, w) f h = h a w
continue-Keeps view (err e, w) f h = refl

pub Keeps-bind :
    {W A B X : Type 0} (view : W → X) (m : M W A) (f : A → M W B)
    → Keeps view m
    → ((a : A) → Keeps view (f a))
    → Keeps view (m >>= f)
Keeps-bind view m f hm hf w = continue-Keeps view (m w) f hf ∙ hm w

continue-OnOk :
    {W A B : Type 0} (P : A → Type 0) (Q : B → Type 0) (r : Result A × W) (f : A → M W B)
    → OnOk r.0 P
    → ((a : A) (w : W) → P a → OnOk (f a w).0 Q)
    → OnOk (continue r f).0 Q
continue-OnOk P Q (ok a, w) f h k = k a w h
continue-OnOk P Q (err e, w) f h k = tt

-- A postcondition of a chain, from one of its first call, whatever state that call leaves.
pub OnOk-bind :
    {W A B : Type 0} (P : A → Type 0) (Q : B → Type 0) (m : M W A) (f : A → M W B) (w : W)
    → OnOk (m w).0 P
    → ((a : A) (w' : W) → P a → OnOk (f a w').0 Q)
    → OnOk ((m >>= f) w).0 Q
OnOk-bind P Q m f w h k = continue-OnOk P Q (m w) f h k

-- What holds of the value and the state, if the promise is fulfilled.
abbrev pub Post {ℓ} : {W A : Type 0} → Result A × W → (A → W → Type ℓ) → Type ℓ
Post (ok a, w) Q = Q a w
Post (err e, w) Q = Unit

pub Post_of_OnOk :
    {W A X : Type 0} (P : A → Type 0) (view : W → X) (r : Result A × W) (x : X)
    → OnOk r.0 P
    → view r.1 ≡ x
    → Post r (λ a w. P a × (view w ≡ x))
Post_of_OnOk P view (ok a, w) x h k = (h, k)
Post_of_OnOk P view (err e, w) x h k = tt

-- A fact about the value and the state that the call returned, as a fact about any such pair.
pub Post_of_state :
    {W A : Type 0} (Q : A → W → Type 0) (r : Result A × W) → OnOk r.0 (λ a. Q a r.1) → Post r Q
Post_of_state Q (ok a, w) h = h
Post_of_state Q (err e, w) h = tt

pub OnOk_of_Post :
    {W A : Type 0} (Q : A → W → Type 0) (r : Result A × W) → Post r Q → OnOk r.0 (λ a. Q a r.1)
OnOk_of_Post Q (ok a, w) h = h
OnOk_of_Post Q (err e, w) h = tt

continue-Post :
    {W A B : Type 0} (P : A → W → Type 0) (Q : B → W → Type 0) (r : Result A × W) (f : A → M W B)
    → Post r P
    → ((a : A) (w : W) → P a w → Post (f a w) Q)
    → Post (continue r f) Q
continue-Post P Q (ok a, w) f h k = k a w h
continue-Post P Q (err e, w) f h k = tt

pub Post-bind :
    {W A B : Type 0} (P : A → W → Type 0) (Q : B → W → Type 0) (m : M W A) (f : A → M W B) (w : W)
    → Post (m w) P
    → ((a : A) (w' : W) → P a w' → Post (f a w') Q)
    → Post ((m >>= f) w) Q
Post-bind P Q m f w h k = continue-Post P Q (m w) f h k

pub Post_of_Keeps :
    {W A X : Type 0} (view : W → X) (m : M W A) (w : W) (x : X)
    → Keeps view m
    → view w ≡ x
    → Post (m w) (λ a w'. view w' ≡ x)
Post_of_Keeps view m w x h e =
    Post_of_state (λ a w'. view w' ≡ x) (m w)
      (OnOk-map (λ _. Unit {0}) (λ a. view (m w).1 ≡ x) (m w).0 (λ a _. h w ∙ e) (OnOk-any (m w).0))

pub Post-map :
    {W A : Type 0} (P Q : A → W → Type 0) (r : Result A × W)
    → ((a : A) (w : W) → P a w → Q a w)
    → Post r P
    → Post r Q
Post-map P Q (ok a, w) f h = f a w h
Post-map P Q (err e, w) f h = tt

abbrev pub Fails {ℓ} : {W : Type ℓ} {A : Type 0} → Result A × W → Type 0
Fails r = (e : Failure) × (r.0 ≡ err e)

continue-Fails :
    {W A B : Type 0} (P : A → W → Type 0) (r : Result A × W) (f : A → M W B)
    → Post r P
    → ((a : A) (w : W) → P a w → Fails (f a w))
    → Fails (continue r f)
continue-Fails P (ok a, w) f h k = k a w h
continue-Fails P (err e, w) f h k = (e, refl)

-- A chain fails if its first call does, or leads to a rest that fails.
pub Fails-bind :
    {W A B : Type 0} (P : A → W → Type 0) (m : M W A) (f : A → M W B) (w : W)
    → Post (m w) P
    → ((a : A) (w' : W) → P a w' → Fails (f a w'))
    → Fails ((m >>= f) w)
Fails-bind P m f w h k = continue-Fails P (m w) f h k

continue-Fails_first :
    {W A B : Type 0} (r : Result A × W) (f : A → M W B) → Fails r → Fails (continue r f)
continue-Fails_first (ok a, w) f h = cc h.1
continue-Fails_first (err e, w) f h = (e, refl)

pub Fails-first :
    {W A B : Type 0} (m : M W A) (f : A → M W B) (w : W) → Fails (m w) → Fails ((m >>= f) w)
Fails-first m f w h = continue-Fails_first (m w) f h

pub Post_any : {W A : Type 0} (r : Result A × W) → Post r (λ _ _. Unit {0})
Post_any (ok a, w) = tt
Post_any (err e, w) = tt

pub Result-cases {ℓ} :
    {A : Type ℓ} (r : Result A) → ((a : A) × (r ≡ ok a)) ⊎ ((e : Failure) × (r ≡ err e))
Result-cases (ok a) = inl (a, refl)
Result-cases (err e) = inr (e, refl)

continue-Fails_keeps :
    {W A B X : Type 0} (view : W → X) (r : Result A × W) (f : A → M W B)
    → Fails r
    → view (continue r f).1 ≡ view r.1
continue-Fails_keeps view (ok a, w) f h = cc h.1
continue-Fails_keeps view (err e, w) f h = refl

-- After a first call that failed nothing else has happened.
pub Fails-Keeps :
    {W A B X : Type 0} (view : W → X) (m : M W A) (f : A → M W B) (w : W)
    → Fails (m w)
    → Keeps view m
    → view ((m >>= f) w).1 ≡ view w
Fails-Keeps view m f w h k = continue-Fails_keeps view (m w) f h ∙ k w
