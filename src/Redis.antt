-- ===== src/Redis.antt =====
-- packages/node/providers/redis/src/scripts: the Lua scripts that the program installs in Redis. The
-- commands of Redis and the JSON coding of `cjson` are parameters. A command that fails stops the
-- script, and what was written before it stays written.
pub mod Activation
use block_feed_prototype.Prelude.{
  ℕ, Bool, true, false, List, [], ◌∷◌, String, ◌==◌, nat_eq, if◌then◌else◌,
}
use block_feed_prototype.Promise.{M, pure, ◌>>=◌}

pub record Commands (W : Type 0) : Type 0 where
  pub smismember : String → List String → M W (List ℕ)
  pub sadd : String → List String → M W ℕ
  -- a list of pairs of a score and a member
  pub zadd : String → List (ℕ × String) → M W ℕ
  pub xack : String → String → List String → M W ℕ
  pub xdel : String → List String → M W ℕ

-- The job object that is queued for a webhook.
pub record Job : Type 0 where
  pub webhook_id : String
  pub block_height : ℕ
  pub is_new : Bool

module _ {W : Type 0} (redis : Commands W) where
  -- scripts/xackdel.ts
  unfoldable pub xackdel : String → String → List String → M W (Unit {0})
  xackdel stream_key consumer_group_key ids = do
    acked ← redis.xack stream_key consumer_group_key ids
    deleted ← redis.xdel stream_key ids
    pure tt

module _ (encode : Job → String) where
  -- The loop of scripts/activate.ts: a job with score 0 for each identifier that is no member yet.
  unfoldable pub jobs : List ℕ → List String → List (ℕ × String)
  jobs [] ids = []
  jobs (b ∷ bits) [] = []
  jobs (b ∷ bits) (id ∷ ids) =
      let rest = jobs bits ids in
      if b == 0
      then (0, encode (record { webhook_id = id; block_height = 0; is_new = true })) ∷ rest
      else rest

  -- scripts/activate.ts
  module _ {W : Type 0} (redis : Commands W) where
    unfoldable pub queue_jobs : String → List (ℕ × String) → M W (Unit {0})
    queue_jobs pending_set_key entries = do queued ← redis.zadd pending_set_key entries; pure tt

    unfoldable pub add_members : String → String → List String → List ℕ → M W (Unit {0})
    unfolding queue_jobs jobs
    add_members webhook_set_key pending_set_key ids exists = do
      added ← redis.sadd webhook_set_key ids
      queue_jobs pending_set_key (jobs exists ids)

    unfoldable pub activate : String → String → List String → M W (Unit {0})
    unfolding add_members
    activate webhook_set_key pending_set_key ids = do
      exists ← redis.smismember webhook_set_key ids
      add_members webhook_set_key pending_set_key ids exists
