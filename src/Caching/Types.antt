-- ===== src/Caching/Types.antt =====
-- packages/node/caching/src/core/types.ts: the interfaces of the caches. A cache that answers at
-- once changes the world and cannot fail; an asynchronous one returns a promise.
use block_feed_prototype.Prelude.{ℕ, Option, String}
use block_feed_prototype.Promise.{M}

pub record AsyncCache (W T : Type 0) : Type 0 where
  pub get : String → M W (Option T)
  pub invalidate : String → M W ℕ

pub record AsyncCallbackCache (W T P : Type 0) : Type 0 where
  pub get : String → M W (Option T)
  pub set : String → T → M W (Unit {0})
  pub invalidate : String → M W ℕ
  pub get_or_set : String → P → M W T

pub record CallbackCache (W T P : Type 0) : Type 0 where
  pub get : String → W → T × W
  pub set : String → T → W → W
  pub invalidate : String → W → ℕ × W
  pub get_or_set : String → P → W → T × W
