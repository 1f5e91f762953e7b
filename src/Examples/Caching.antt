-- ===== src/Examples/Caching.antt =====
-- The LRU cache at a small capacity.
use block_feed_prototype.Prelude.{ℕ, ◌≡◌, List, [], ◌∷◌, string_eq}
use block_feed_prototype.Caching.Lru.Defs.{Nullable, val}
use block_feed_prototype.Caching.Lru.Window.{recent}
use block_feed_prototype.Caching.Lru.Invariant.{room}
use block_feed_prototype.Caching.Lru.History.{
  Use, getting, setting, getting_or_setting, run_uses, note_all, run-window,
}

abbrev double : ℕ → Nullable ℕ
double n = val n

abbrev uses : List (Use ℕ ℕ)
uses = setting "a" (val 1) ∷ setting "b" (val 2) ∷ getting "a" ∷ getting_or_setting "c" 3 ∷ []

run-window_example : run_uses 2 double uses [] ≡ recent (room 2) (note_all 2 double uses [])
run-window_example = run-window 2 double uses
