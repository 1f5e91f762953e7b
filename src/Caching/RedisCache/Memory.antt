-- ===== src/Caching/RedisCache/Memory.antt =====
-- A Redis kept in memory as a map: it satisfies what the cache assumes.
use block_feed_prototype.Prelude.{refl, Option, String, string_eq, arith}
use block_feed_prototype.Promise.{ok}
use block_feed_prototype.Js.Map
use block_feed_prototype.Js.Map.{Map}
use block_feed_prototype.Caching.RedisCache.{Redis}
use block_feed_prototype.Caching.RedisCache.Laws.{IsStore}

abbrev pub Store : Type 0
Store = Map String String

abbrev pub memory : Redis Store
memory = record {
  get = λ k w. (ok (Map.get k w), w);
  del = λ k w. (ok 1, Map.delete k w);
  set = λ k v px w. (ok tt, Map.set k v w);
}

abbrev pub contents : Store → String → Option String
contents w k = Map.get k w

pub memory-IsStore : IsStore memory contents
memory-IsStore = record {
  get_keeps = λ k w. refl;
  get_value = λ k w. refl;
  set_value = λ k v px j w. ground (arith, Map.get-set j k v w);
  del_value = λ k j w. ground (arith, Map.get-delete j k w);
}
