-- ===== src/Examples/Web.antt =====
-- Two words that the public site types.
use block_feed_prototype.Prelude.{ℕ, ◌+◌, ◌<◌, ◌≡◌, refl, [], ◌∷◌}
use block_feed_prototype.Web.TypeWriter.{TypeWriterProps, ticks, initial, cycle, types_all}

abbrev props : TypeWriterProps
props = record {
  typing_delay_ms = 100;
  typing_pause_ms = 2000;
  words = (70 ∷ 97 ∷ []) ∷ (83 ∷ []) ∷ [];
}

types_all_example :
    ((n : ℕ) × (n < cycle props.words)
      × (ticks props n (initial props) ≡ record { word_idx = 1; word = 83 ∷ [] }))
    × (ticks props (cycle props.words + 1) (initial props) ≡ initial props)
types_all_example = types_all props 1 (83 ∷ []) refl
