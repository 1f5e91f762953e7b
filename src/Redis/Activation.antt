-- ===== src/Redis/Activation.antt =====
-- What the activation script does to a shard of Redis whose commands behave as documented.
use mathlib.Core.List.{map-map}
use block_feed_prototype.Prelude.{
  ℕ, ◌≡◌, refl, ◌∙◌, ap, Bool, true, false, ◌||◌, ◌&&◌, List, [], ◌∷◌, map, String, ◌==◌, nat_eq,
  string_eq, in_array, if◌then◌else◌, All, inl, inr, Bool-cases,
}
use block_feed_prototype.Promise.{
  err, Failure, Post, Post-bind, Post_any, pure, Fails, Fails-bind, Fails-first,
}
use block_feed_prototype.Redis.{Commands, Job, jobs, queue_jobs, add_members, activate}

abbrev pub bit : Bool → ℕ
bit true = 1
bit false = 0

-- `member` and `queued` are what the sets and the sorted sets hold under their keys.
pub record IsRedis {W : Type 0} (redis : Commands W) (member queued : W → String → String → Bool)
    : Type 0 where
  pub smismember_value :
      (k : String) (ids : List String) (w : W)
      → Post (redis.smismember k ids w) (λ bits w'.
        (bits ≡ map (λ id. bit (member w k id)) ids)
        × (member w' ≡ member w)
        × (queued w' ≡ queued w))
  pub sadd_value :
      (k : String) (ids : List String) (w : W)
      → Post (redis.sadd k ids w) (λ n w'.
        ((j id : String) → member w' j id ≡ (member w j id || (j == k && in_array id ids)))
        × (queued w' ≡ queued w))
  pub zadd_value :
      (k : String) (entries : List (ℕ × String)) (w : W)
      → Post (redis.zadd k entries w) (λ n w'.
        ((j m : String)
          → queued w' j m ≡ (queued w j m || (j == k && in_array m (map (λ e. e.1) entries))))
        × (member w' ≡ member w))
  -- `ZADD key` with no score and member has too few arguments.
  pub zadd_nothing : (k : String) (w : W) → (e : Failure) × ((redis.zadd k [] w).0 ≡ err e)

-- The identifiers among `ids` that are not members yet.
abbrev pub fresh : (String → Bool) → List String → List String
fresh known [] = []
fresh known (id ∷ ids) = if known id then fresh known ids else id ∷ fresh known ids

abbrev pub new_job : String → Job
new_job id = record { webhook_id = id; block_height = 0; is_new = true }

module _ (encode : Job → String) where
  jobs-fresh :
      (known : String → Bool) (ids : List String)
      → jobs encode (map (λ id. bit (known id)) ids) ids
        ≡ map (λ id. (0, encode (new_job id))) (fresh known ids)
  unfolding jobs nat_eq
  jobs-fresh known [] = refl
  jobs-fresh known (id ∷ ids) = elim (Bool-cases (known id)) [
    | inl e ↦ rw e (jobs-fresh known ids)
    | inr e ↦ rw e (ap (◌∷◌ (0, encode (new_job id))) (jobs-fresh known ids))
  ]

  fresh_nothing :
      (known : String → Bool) (ids : List String)
      → All (λ id. known id ≡ true) ids
      → fresh known ids ≡ []
  fresh_nothing known [] h = refl
  fresh_nothing known (id ∷ ids) h = rw h.0 (fresh_nothing known ids h.1)

  -- What a run of the script on the sets has changed.
  pub record IsActivation {W : Type 0} (member queued : W → String → String → Bool)
      (set_key pending_key : String) (ids : List String) (w w' : W) : Type 0 where
    pub members :
        (j id : String) → member w' j id ≡ (member w j id || (j == set_key && in_array id ids))
    pub pending :
        (j m : String)
        → queued w' j m ≡ (
            queued w j m
            || (j == pending_key
                && in_array m (map (λ id. encode (new_job id)) (fresh (member w set_key) ids))))

  -- The entries of the jobs are those of the identifiers that are no members.
  jobs_members :
      (known : String → Bool) (ids : List String)
      → map (λ e. e.1) (jobs encode (map (λ id. bit (known id)) ids) ids)
        ≡ map (λ id. encode (new_job id)) (fresh known ids)
  jobs_members known ids = rw (jobs-fresh known ids) (map-map _ _ (fresh known ids))

  module _ {W : Type 0} (redis : Commands W) (member queued : W → String → String → Bool)
      (lawful : IsRedis redis member queued) (set_key pending_key : String) (ids : List String)
      (w : W) where
    Looked : List ℕ → W → Type 0
    Looked bits w1 =
        (bits ≡ map (λ id. bit (member w set_key id)) ids)
        × (member w1 ≡ member w)
        × (queued w1 ≡ queued w)

    add_members-IsActivation :
        (bits : List ℕ) (w1 : W)
        → Looked bits w1
        → Post
            (add_members encode redis set_key pending_key ids bits w1)
            (λ _ w'. IsActivation member queued set_key pending_key ids w w')
    unfolding add_members Looked
    add_members-IsActivation bits w1 h1 =
        Post-bind
          (λ n w2.
            ((j id : String)
              → member w2 j id ≡ (member w1 j id || (j == set_key && in_array id ids)))
            × (queued w2 ≡ queued w1))
          _ (redis.sadd set_key ids)
          (λ added. queue_jobs encode redis pending_key (jobs encode bits ids)) w1
          (lawful.sadd_value set_key ids w1)
          λ n w2 h2.
            Post-bind
              (λ n w3.
                ((j m : String)
                  → queued w3 j m ≡ (
                      queued w2 j m
                      || (j == pending_key && in_array m (map (λ e. e.1) (jobs encode bits ids)))))
                × (member w3 ≡ member w2))
              _ (redis.zadd pending_key (jobs encode bits ids)) (λ n. pure tt) w2
              (lawful.zadd_value pending_key (jobs encode bits ids) w2)
              λ n w3 h3. record {
                members = λ j id.
                    ap (λ f. f j id) h3.1
                    ∙ h2.0 j id
                    ∙ ap (λ f. f j id || (j == set_key && in_array id ids)) h1.1;
                pending = λ j m.
                    h3.0 j m
                    ∙ ap
                        (λ f.
                          f j m
                          || (j == pending_key
                              && in_array m (map (λ e. e.1) (jobs encode bits ids))))
                        (h2.1 ∙ h1.2)
                    ∙ ap
                        (λ b.
                          queued w j m
                          || (j == pending_key && in_array m (map (λ e. e.1) (jobs encode b ids))))
                        h1.0
                    ∙ ap (λ ms. queued w j m || (j == pending_key && in_array m ms))
                        (jobs_members (member w set_key) ids);
              }

    -- A script that returns has made every identifier a member of the set, has queued a new job for
    -- exactly those that were not members before, and has changed nothing else in either.
    pub activate-IsActivation :
        Post
          (activate encode redis set_key pending_key ids w)
          (λ _ w'. IsActivation member queued set_key pending_key ids w w')
    unfolding activate Looked
    activate-IsActivation =
        Post-bind Looked _ (redis.smismember set_key ids)
          (add_members encode redis set_key pending_key ids) w
          (lawful.smismember_value set_key ids w) add_members-IsActivation

    no_jobs :
        (bits : List ℕ)
        → All (λ id. member w set_key id ≡ true) ids
        → bits ≡ map (λ id. bit (member w set_key id)) ids
        → jobs encode bits ids ≡ []
    no_jobs bits known e =
        ap (λ b. jobs encode b ids) e
        ∙ jobs-fresh (member w set_key) ids
        ∙ ap (map (λ id. (0, encode (new_job id)))) (fresh_nothing (member w set_key) ids known)

    -- Once all of the identifiers are members, the script always fails: `ZADD` is left with nothing to
    -- add. So it is not idempotent.
    pub activate_again :
        All (λ id. member w set_key id ≡ true) ids
        → Fails (activate encode redis set_key pending_key ids w)
    unfolding activate add_members queue_jobs Looked
    activate_again known =
        Fails-bind Looked (redis.smismember set_key ids)
          (add_members encode redis set_key pending_key ids) w
          (lawful.smismember_value set_key ids w)
          λ bits w1 h.
            Fails-bind (λ _ _. Unit {0}) (redis.sadd set_key ids)
              (λ added. queue_jobs encode redis pending_key (jobs encode bits ids)) w1
              (Post_any (redis.sadd set_key ids w1))
              λ n w2 _.
                Fails-first (redis.zadd pending_key (jobs encode bits ids)) (λ n. pure tt) w2
                  (rw (no_jobs bits known h.0) (lawful.zadd_nothing pending_key w2))
