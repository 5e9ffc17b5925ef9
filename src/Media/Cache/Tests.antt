-- ===== src/Media/Cache/Tests.antt =====
-- internal/media/cache.go: an eviction from a cache of three entries, one of them pinned.
use agent_gm.Prelude.{ℕ, ◌≡◌, refl, Bool, true, false, none, String, [], ◌∷◌}
use agent_gm.Prelude.Int.{pos}
use agent_gm.Store.Write.{commits}
use agent_gm.Media.Cache.{CacheEntry, Entries, cache_bytes, unpinned, EvictEnv, evict}
use agent_gm.Media.Cache.Budget.{Undisturbed, IsEvicted, evict-IsEvicted}

abbrev entry : String → ℕ → Bool → ℕ → CacheEntry
entry id size pinned used = record {
  attachment_id = id;
  relative_path = id;
  size_bytes = size;
  pinned = pinned;
  last_used_ms = used;
}

abbrev rows : Entries
rows = entry "a" 40 false 9 ∷ entry "b" 30 true 1 ∷ entry "c" 50 false 5 ∷ []

abbrev quiet : EvictEnv
quiet = record {
  list_error = none;
  before_delete = λ _ rows. rows;
  delete_fate = λ _. commits;
  resolves = λ _. true;
}

quiet-Undisturbed : Undisturbed quiet
quiet-Undisturbed = record { listed = refl; alone = λ _ _. refl; committed = λ _. refl }

abbrev any_order : String → String → Bool
any_order _ _ = true

-- The entry used longest ago goes, the pinned one stays though it is older.
evicted_path : (evict any_order quiet (pos 100) rows).unlinked ≡ "c" ∷ []
unfolding evict
evicted_path = refl

-- An entry that is pinned after it was listed goes all the same.
abbrev pinned_meanwhile : EvictEnv
pinned_meanwhile = record quiet { before_delete = λ id rows. pinned_rows id rows }
  where
    pinned_rows : String → Entries → Entries
    pinned_rows id [] = []
    pinned_rows id (e ∷ rest) = record e { pinned = true } ∷ pinned_rows id rest

evicted_while_pinned : (evict any_order pinned_meanwhile (pos 100) rows).unlinked ≡ "c" ∷ []
unfolding evict
evicted_while_pinned = refl

evict-IsEvicted_example :
    IsEvicted
      (pos 100)
      (cache_bytes rows)
      0
      (unpinned any_order rows)
      rows
      (evict any_order quiet (pos 100) rows)
evict-IsEvicted_example =
    evict-IsEvicted any_order quiet (pos 100) rows quiet-Undisturbed
      ((refl, (refl, tt)), ((refl, tt), (tt, tt))) (refl, (refl, (refl, tt)))
