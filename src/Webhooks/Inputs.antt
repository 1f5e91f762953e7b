-- ===== src/Webhooks/Inputs.antt =====
-- The arguments of the handlers under apps/dashboard/src/server/schema/webhooks, their `zInput`
-- schemas as Boolean tests, and the limits of apps/dashboard/src/utils/constants.ts.
use block_feed_prototype.Prelude.{
  ℕ, ℤ, between, Bool, true, ◌&&◌, Option, none, some, List, String, leb, length, every,
}

-- What `zod` finds of a text: a URL, a UUID, and its length in code units.
pub record Zod : Type 0 where
  pub is_url : String → Bool
  pub is_uuid : String → Bool
  pub length : String → ℕ

-- `.optional().nullable()`
abbrev pub optional {ℓ} : {A : Type ℓ} → (A → Bool) → Option A → Bool
optional p none = true
optional p (some a) = p a

abbrev pub valid_max_blocks : ℤ → Bool
valid_max_blocks = between 1 10

abbrev pub valid_max_retries : ℤ → Bool
valid_max_retries = between 0 10

abbrev pub valid_timeout_ms : ℤ → Bool
valid_timeout_ms = between 0 10000

pub record CreateData : Type 0 where
  pub url : String
  pub max_blocks : ℤ
  pub max_retries : ℤ
  pub timeout_ms : ℤ
  pub blockchain_id : String

pub record UpdateData : Type 0 where
  pub url : Option String
  pub max_blocks : Option ℤ
  pub max_retries : Option ℤ
  pub timeout_ms : Option ℤ

module _ (zod : Zod) where
  abbrev pub valid_url : String → Bool
  valid_url url = zod.is_url url && leb 1 (zod.length url) && leb (zod.length url) 2048

  unfoldable pub valid_create : CreateData → Bool
  valid_create d =
      valid_url d.url
      && valid_max_blocks d.max_blocks
      && valid_max_retries d.max_retries
      && valid_timeout_ms d.timeout_ms
      && leb 0 (zod.length d.blockchain_id)
      && leb (zod.length d.blockchain_id) 1024

  unfoldable pub valid_update : String → UpdateData → Bool
  valid_update id d =
      zod.is_uuid id
      && optional valid_url d.url
      && optional valid_max_blocks d.max_blocks
      && optional valid_max_retries d.max_retries
      && optional valid_timeout_ms d.timeout_ms

  -- `webhookRemove` and `webhookActivate` take up to 50 identifiers.
  unfoldable pub valid_ids : List String → Bool
  valid_ids ids = every zod.is_uuid ids && leb 0 (length ids) && leb (length ids) 50
