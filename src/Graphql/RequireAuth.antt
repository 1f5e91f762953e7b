-- ===== src/Graphql/RequireAuth.antt =====
-- apps/dashboard/src/server/graphql/middleware/require-auth.middleware.ts and plugins/clerk.plugin.ts. What
-- the request, the regular expression and the verification of `jsonwebtoken` do is a parameter.
use block_feed_prototype.Prelude.{
  ◌≡◌, refl, ap, ◌∙◌, Bool-cases, Option-cases, ◌⊎◌, inl, inr, Bool, true, false, Option, none,
  some, List, String, concat, string_eq, arith,
}
use block_feed_prototype.Promise.{
  M, Result, ok, err, pure, throw, ◌>>=◌, Post, Post-bind, Post-map, Post_of_Keeps, Keeps,
}
use block_feed_prototype.Caching.Types.{AsyncCache}
use block_feed_prototype.Db.Schema.{Customer, customers_clash}
use block_feed_prototype.Db.Table.{Table, IsTable, insert_ignore_row}
use block_feed_prototype.Db.Effects.{insert_ignore_post}
use block_feed_prototype.Graphql.Errors.{gql_unauthorized_error}

-- What a verified token stands for: a text, or an object that may have a `sub` field.
pub data Jwt : Type 0 where
  jwt_text : String → Jwt
  jwt_payload : Option String → Jwt

-- `/^bearer\s\S+$/g`, `trim().split(" ").at(1)`, and `jwt.verify` with the key of the environment.
pub record Authorization (W : Type 0) : Type 0 where
  pub is_bearer : String → Bool
  pub second_word : String → Option String
  pub verify : String → W → Result Jwt × W

-- The verification of a token, as far as the header has a well-formed one.
abbrev pub token_result : {W : Type 0} → Authorization W → Option String → W → Option (Result Jwt)
token_result auth none w = none
token_result auth (some authorization) w = elim (auth.is_bearer authorization) [
  | false ↦ none
  | true ↦ elim (auth.second_word authorization) [
    | none ↦ none
    | some token ↦ some (auth.verify token w).0
  ]
]

token_result-some :
    {W : Type 0} (auth : Authorization W) (authorization token : String) (w : W)
    → auth.is_bearer authorization ≡ true
    → auth.second_word authorization ≡ some token
    → token_result auth (some authorization) w ≡ some (auth.verify token w).0
token_result-some auth authorization token w e f = ground arith

module _ {W User : Type 0} (auth : Authorization W) (cache : AsyncCache W User)
    (customer : Table W Customer) where
  -- Makes sure of a row for a user that the cache does not know.
  unfoldable pub ensure_customer : String → Option User → M W String
  ensure_customer user_id (some user) = pure user_id
  ensure_customer user_id none = do
    affected_rows ← customer.insert_ignore (record { id = user_id })
    pure user_id

  unfoldable pub authenticated : Jwt → M W String
  unfolding ensure_customer
  authenticated (jwt_text s) =
      throw (gql_unauthorized_error (concat "received unexpected string from JWT verification: " s))
  authenticated (jwt_payload none) = throw (gql_unauthorized_error "JWT is missing \"sub\" field")
  authenticated (jwt_payload (some user_id)) = do
    user ← cache.get user_id
    ensure_customer user_id user

  -- `.catch` replaces whatever error the verification has.
  unfoldable pub verified : Result Jwt → M W String
  unfolding authenticated
  verified (err e) = throw (gql_unauthorized_error "could not verify token")
  verified (ok result) = authenticated result

  unfoldable pub with_token : Option String → M W String
  unfolding verified
  with_token none w = throw (gql_unauthorized_error "authorization header has no token") w
  with_token (some token) w = let (result, w') = auth.verify token w in verified result w'

  unfoldable pub with_header : String → Bool → M W String
  unfolding with_token
  with_header authorization false =
      throw (gql_unauthorized_error "authorization header is malformed")
  with_header authorization true = with_token (auth.second_word authorization)

  unfoldable pub require_auth : Option String → M W String
  unfolding with_header
  require_auth none = throw (gql_unauthorized_error "request is missing authorization header")
  require_auth (some authorization) = with_header authorization (auth.is_bearer authorization)

  -- Who is let in, and what became of the customers: as they were, or with a row for that user.
  abbrev pub Admitted : (W → List Customer) → Option String → W → String → W → Type 0
  Admitted rows header w user_id w' =
      (token_result auth header w ≡ some (ok (jwt_payload (some user_id))))
      × ((rows w' ≡ rows w)
          ⊎ (rows w' ≡ insert_ignore_row customers_clash (record { id = user_id }) (rows w)))

  module _ (rows : W → List Customer) (table : IsTable customer rows customers_clash)
      (reads : (key : String) → Keeps rows (cache.get key))
      (verifies : (token : String) (w : W) → rows (auth.verify token w).1 ≡ rows w) where
    authenticated-Post :
        (jwt : Jwt) (w : W)
        → Post (authenticated jwt w) (λ user_id w'.
          (jwt ≡ jwt_payload (some user_id))
          × ((rows w' ≡ rows w)
              ⊎ (rows w' ≡ insert_ignore_row customers_clash (record { id = user_id }) (rows w))))
    unfolding authenticated ensure_customer
    authenticated-Post (jwt_text s) w = tt
    authenticated-Post (jwt_payload none) w = tt
    authenticated-Post (jwt_payload (some user_id)) w =
        Post-bind (λ user w'. rows w' ≡ rows w) _ (cache.get user_id) (ensure_customer user_id) w
          (Post_of_Keeps rows (cache.get user_id) w (rows w) (reads user_id) refl) ensured
      where
        ensured :
            (user : Option User) (w' : W)
            → rows w' ≡ rows w
            → Post (ensure_customer user_id user w') (λ u w''.
              (jwt_payload (some user_id) ≡ jwt_payload (some u))
              × ((rows w'' ≡ rows w)
                  ⊎ (rows w'' ≡ insert_ignore_row customers_clash (record { id = u }) (rows w))))
        ensured (some user) w' same = (refl, inl same)
        ensured none w' same =
            Post-bind
              (λ n w''.
                rows w'' ≡ insert_ignore_row customers_clash (record { id = user_id }) (rows w))
              _ (customer.insert_ignore (record { id = user_id })) (λ n. pure user_id) w'
              (insert_ignore_post customer rows customers_clash table (record { id = user_id }) w'
                (λ after.
                  after ≡ insert_ignore_row customers_clash (record { id = user_id }) (rows w))
                (rw same refl))
              (λ n w'' h. (refl, inr h))

    abbrev Read : W → Result Jwt → String → W → Type 0
    Read w r user_id w' =
        (some r ≡ some (ok (jwt_payload (some user_id))))
        × ((rows w' ≡ rows w)
            ⊎ (rows w' ≡ insert_ignore_row customers_clash (record { id = user_id }) (rows w)))

    verified-Post :
        (w : W) (r : Result Jwt × W) → rows r.1 ≡ rows w → Post (verified r.0 r.1) (Read w r.0)
    unfolding verified
    verified-Post w (err e, w') same = tt
    verified-Post w (ok jwt, w') same =
        Post-map
          (λ user_id w''.
            (jwt ≡ jwt_payload (some user_id))
            × ((rows w'' ≡ rows w')
                ⊎ (rows w''
                    ≡ insert_ignore_row customers_clash (record { id = user_id }) (rows w'))))
          _ (authenticated jwt w')
          (λ user_id w'' h. (ap (λ (j : Jwt). some (ok j)) h.0, rw same at h.1))
          (authenticated-Post jwt w')

    header-Post :
        (authorization : String) (w : W)
        → Post (require_auth (some authorization) w) (Admitted rows (some authorization) w)
    unfolding require_auth with_header with_token
    header-Post authorization w = elim (Bool-cases (auth.is_bearer authorization)) [
      | inr e ↦ rw e tt
      | inl e ↦ elim (Option-cases (auth.second_word authorization)) [
        | inl f ↦ rw (e, f) tt
        | inr (token, f) ↦
            let t = token_result-some auth authorization token w e f in
            rw (e, f)
              (Post-map (Read w (auth.verify token w).0) (Admitted rows (some authorization) w)
                (verified (auth.verify token w).0 (auth.verify token w).1)
                (λ user_id w' h. (t ∙ h.0, h.1))
                (verified-Post w (auth.verify token w) (verifies token w)))
      ]
    ]

    -- Whoever is let in has sent a well-formed header with a token that was verified, and is the
    -- user whom the token names; the customers of the database are as they were, or hold in addition
    -- a row for that user, if no other row had its identifier. The cache and the verification leave
    -- the customers alone.
    pub require_auth-Admitted :
        (header : Option String) (w : W) → Post (require_auth header w) (Admitted rows header w)
    unfolding require_auth
    require_auth-Admitted none w = tt
    require_auth-Admitted (some authorization) w = header-Post authorization w
