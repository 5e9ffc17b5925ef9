-- ===== src/Media/Cache.antt =====
-- internal/media/cache.go and storeindex.go, internal/store/media.go: the rows of media_cache_entries, and
-- the eviction that keeps them within a budget. The files behind them are not modelled but for the
-- paths that are unlinked.
pub mod Evicting
pub mod Budget
mod Tests
use agent_gm.Prelude.{
  ℕ, zero, suc, ◌+◌, ◌-◌, Bool, true, false, not, ◌&&◌, ◌||◌, Option, none, some, String, List, [],
  ◌∷◌, ◌++◌, ltb, ◌==◌, str_eq, if◌then◌else◌,
}
use agent_gm.Prelude.Int.{ℤ, pos, negsuc}
use agent_gm.Prelude.Rows.{first_where, select_where, update_where, delete_where}
use agent_gm.Store.Write.{StoreError, Result, ok, err, Fate, write}
use agent_gm.Store.Credentials.{TxOn}

pub record CacheEntry : Type 0 where
  pub attachment_id : String
  pub relative_path : String
  pub size_bytes : ℕ
  pub pinned : Bool
  pub last_used_ms : ℕ

abbrev pub Entries : Type 0
Entries = List CacheEntry

abbrev pub is_entry : String → CacheEntry → Bool
is_entry id e = str_eq e.attachment_id id

abbrev pub is_pinned : CacheEntry → Bool
is_pinned e = e.pinned

abbrev pub is_unpinned : CacheEntry → Bool
is_unpinned e = not (e.pinned)

abbrev any_found : Option CacheEntry → Bool
any_found none = false
any_found (some e) = true

-- PutMediaCacheEntry: one row for an attachment
unfoldable pub put_entry : ℕ → CacheEntry → TxOn Entries (Unit {0})
unfolding first_where update_where
put_entry now e rows = ok (
  tt,
  if any_found (first_where (is_entry e.attachment_id) rows)
      then update_where (is_entry e.attachment_id) (λ old. record e { last_used_ms = now }) rows
      else rows ++ record e { last_used_ms = now } ∷ [],
)

unfoldable pub touch_entry : ℕ → String → TxOn Entries (Unit {0})
unfolding update_where
touch_entry now id rows =
    ok (tt, update_where (is_entry id) (λ e. record e { last_used_ms = now }) rows)

unfoldable pub set_pinned : String → Bool → TxOn Entries (Unit {0})
unfolding update_where
set_pinned id pinned rows =
    ok (tt, update_where (is_entry id) (λ e. record e { pinned = pinned }) rows)

unfoldable pub cache_bytes : Entries → ℕ
cache_bytes [] = 0
cache_bytes (e ∷ rest) = e.size_bytes + cache_bytes rest

-- ORDER BY last_used_ms ASC, attachment_id ASC, for the order of texts.
abbrev pub used_before : (String → String → Bool) → CacheEntry → CacheEntry → Bool
used_before le a b =
    ltb a.last_used_ms b.last_used_ms
    || (a.last_used_ms == b.last_used_ms && le a.attachment_id b.attachment_id)

unfoldable pub insert_used : (String → String → Bool) → CacheEntry → Entries → Entries
insert_used le a [] = a ∷ []
insert_used le a (b ∷ rest) =
    let placed = insert_used le a rest in if used_before le a b then a ∷ b ∷ rest else b ∷ placed

unfoldable pub by_use : (String → String → Bool) → Entries → Entries
unfolding insert_used
by_use le [] = []
by_use le (a ∷ rest) = insert_used le a (by_use le rest)

-- StoreIndex.Unpinned, whose rows the cache puts in order again.
unfoldable pub unpinned : (String → String → Bool) → Entries → Entries
unfolding by_use select_where
unpinned le rows = by_use le (by_use le (select_where is_unpinned rows))

abbrev path_of : Option CacheEntry → String
path_of none = ""
path_of (some e) = e.relative_path

-- StoreIndex.Delete: the path of the row that it deletes, or none.
unfoldable pub delete_entry : String → TxOn Entries String
unfolding first_where delete_where
delete_entry id rows =
    ok (path_of (first_where (is_entry id) rows), delete_where (is_entry id) rows)

-- A budget of zero or less is none.
unfoldable pub over_budget : ℤ → ℕ → Bool
over_budget (pos zero) total = false
over_budget (pos (suc m)) total = ltb (suc m) total
over_budget (negsuc m) total = false

pub data EvictError : Type 0 where
  outside_cache : EvictError
  index_failed : StoreError → EvictError

pub record EvictEnv : Type 0 where
  pub list_error : Option StoreError
  -- what others do before the deletion of an entry, and what becomes of it
  pub before_delete : String → Entries → Entries
  pub delete_fate : String → Fate
  -- Resolve accepts the path
  pub resolves : String → Bool

pub record EvictRun : Type 0 where
  pub error : Option EvictError
  pub freed : ℕ
  pub removed : ℕ
  pub unlinked : List String
  pub rows : Entries

abbrev pub ended : Option EvictError → ℕ → Entries → EvictRun
ended e freed rows = record { error = e; freed = freed; removed = 0; unlinked = []; rows = rows }

abbrev pub one_more : String → EvictRun → EvictRun
one_more path r = record r { removed = suc r.removed; unlinked = path ∷ r.unlinked }

-- What follows the deletion of an entry, with the rest of the loop.
unfoldable pub after_delete :
    EvictEnv → ℕ → CacheEntry → (ℕ → Entries → EvictRun) → Result String × Entries → EvictRun
after_delete env freed e rest (err x, rows) = ended (some (index_failed x)) freed rows
after_delete env freed e rest (ok path, rows) =
    if env.resolves path
    then one_more path (rest (freed + e.size_bytes) rows)
    else ended (some outside_cache) freed rows

unfoldable pub evict_entries : EvictEnv → ℤ → ℕ → Entries → ℕ → Entries → EvictRun
unfolding after_delete write delete_entry over_budget
evict_entries env most total [] freed rows = ended none freed rows
evict_entries env most total (e ∷ rest) freed rows =
    let id = e.attachment_id in
    if over_budget most (total - freed)
    then after_delete env freed e (evict_entries env most total rest)
        (write (env.delete_fate id) (delete_entry id) (env.before_delete id rows))
    else ended none freed rows

unfoldable pub evict_listed :
    (String → String → Bool) → EvictEnv → ℤ → Option StoreError → Entries → EvictRun
unfolding evict_entries unpinned cache_bytes over_budget
evict_listed le env most (some e) rows = ended (some (index_failed e)) 0 rows
evict_listed le env most none rows =
    if over_budget most (cache_bytes rows)
    then evict_entries env most (cache_bytes rows) (unpinned le rows) 0 rows
    else ended none 0 rows

unfoldable pub evict : (String → String → Bool) → EvictEnv → ℤ → Entries → EvictRun
unfolding evict_listed
evict le env most rows = evict_listed le env most env.list_error rows
