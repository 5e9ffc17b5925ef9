-- ===== src/Media/Cache/Budget.antt =====
-- internal/media/cache.go: an eviction that nobody disturbs, against the budget.
use agent_gm.Prelude.{
  ℕ, suc, ◌+◌, ◌-◌, ◌≤◌, ◌≡◌, refl, sym, ap, subst, ◌∙◌, Bool, true, false, none, some, String, [],
  ◌∷◌, ◌++◌, ◌⊎◌, inl, inr, length, map, All, All-weaken, arith, if-both, Bool-cases,
}
use agent_gm.Prelude.Int.{ℤ}
use agent_gm.Prelude.Rows.{first_where, select_where, delete_where}
use agent_gm.Store.Write.{ok, commits, write}
use agent_gm.Media.Cache.{
  CacheEntry, Entries, is_entry, is_pinned, is_unpinned, cache_bytes, unpinned, delete_entry,
  over_budget, EvictEnv, EvictRun, ended, one_more, after_delete, evict_entries, evict_listed,
  evict,
}
use agent_gm.Media.Cache.Evicting.{
  Distinct, IsSole, Older, OldestFirst, unpinned-Oldest_first, bytes-split, select-delete,
  IsSole-delete_where, unpinned-Distinct, unpinned-IsSole, by_use-All, select-All,
}

-- Nobody else touches the rows, and the database and the file system do what they are asked.
pub record Undisturbed (env : EvictEnv) : Type 0 where
  pub listed : env.list_error ≡ none
  pub alone : (id : String) (rows : Entries) → env.before_delete id rows ≡ rows
  pub committed : (id : String) → env.delete_fate id ≡ commits

-- Each entry is taken while the budget is exceeded.
abbrev pub Needed : ℤ → ℕ → ℕ → Entries → Type 0
Needed most total freed [] = Unit {0}
Needed most total freed (e ∷ rest) =
    (over_budget most (total - freed) ≡ true) × Needed most total (freed + e.size_bytes) rest

-- The entries that are taken are the first of the listed ones, each of them needed, and they are
-- enough unless all are taken. Their rows and files go, and nothing else.
pub record IsEvicted (most : ℤ) (total freed : ℕ) (listed rows : Entries) (r : EvictRun)
    : Type 0 where
  pub no_error : r.error ≡ none
  pub taken : Entries
  pub kept : Entries
  pub in_order : listed ≡ taken ++ kept
  pub needed : Needed most total freed taken
  pub oldest : All (λ a. Older a kept) taken
  pub enough : (over_budget most (total - r.freed) ≡ false) ⊎ (kept ≡ [])
  pub count : r.removed ≡ length taken
  pub files : r.unlinked ≡ map (λ e. e.relative_path) taken
  pub pinned_stay : select_where is_pinned r.rows ≡ select_where is_pinned rows
  pub bytes : cache_bytes r.rows + r.freed ≡ cache_bytes rows + freed

first-select :
    (p : CacheEntry → Bool) (rows : Entries) (e : CacheEntry)
    → select_where p rows ≡ e ∷ []
    → first_where p rows ≡ some e
unfolding first_where select_where
first-select p [] e h = cc
first-select p (x ∷ rows) e h = elim (Bool-cases (p x)) [
  | inl t ↦ let same : x ∷ select_where p rows ≡ e ∷ [] = rw t at h in rw t (ap some (head same))
  | inr f ↦ rw f (first-select p rows e (rw f at h))
]
  where
    head : {x y : CacheEntry} {xs ys : Entries} → x ∷ xs ≡ y ∷ ys → x ≡ y
    head h = cc

-- What holds of the selected rows holds of a row that is selected.
select-each :
    (Q : CacheEntry → Type 0) (p : CacheEntry → Bool) (rows : Entries)
    → All Q (select_where p rows)
    → All (λ e. p e ≡ true → Q e) rows
unfolding select_where
select-each Q p [] h = tt
select-each Q p (e ∷ rows) h = elim (Bool-cases (p e)) [
  | inl t ↦
      let h' : All Q (e ∷ select_where p rows) = rw t at h in (λ _. h'.0, select-each Q p rows h'.1)
  | inr f ↦ (λ t. absurd (clash t f), select-each Q p rows (rw f at h))
]
  where
    clash : {b : Bool} → b ≡ true → b ≡ false → ⊥
    clash t f = cc

-- The deletion of the only row of an attachment.
deleted :
    (rows : Entries) (e : CacheEntry)
    → IsSole rows e
    → write commits (delete_entry e.attachment_id) rows
      ≡ (ok e.relative_path, delete_where (is_entry e.attachment_id) rows)
unfolding write delete_entry
deleted rows e sole = rw (first-select _ rows e sole.0) refl

deleted_bytes :
    (rows : Entries) (e : CacheEntry)
    → IsSole rows e
    → cache_bytes (delete_where (is_entry e.attachment_id) rows) + e.size_bytes ≡ cache_bytes rows
unfolding cache_bytes
deleted_bytes rows e sole =
    let split = bytes-split (is_entry e.attachment_id) rows in
    let split' = rw (sole.0) at split in omega arith

deleted_pinned :
    (rows : Entries) (e : CacheEntry)
    → IsSole rows e
    → select_where is_pinned (delete_where (is_entry e.attachment_id) rows)
      ≡ select_where is_pinned rows
deleted_pinned rows e sole = select-delete is_pinned (is_entry e.attachment_id) rows (
    select-each (λ x. x.pinned ≡ false) (is_entry e.attachment_id) rows
      (subst (All (λ x. x.pinned ≡ false)) (sym sole.0) (sole.1, tt)))

stop-IsEvicted :
    (most : ℤ) (total freed : ℕ) (listed rows : Entries)
    → ((over_budget most (total - freed) ≡ false) ⊎ (listed ≡ []))
    → IsEvicted most total freed listed rows (ended none freed rows)
stop-IsEvicted most total freed listed rows enough = record {
  no_error = refl;
  taken = [];
  kept = listed;
  in_order = refl;
  needed = tt;
  oldest = tt;
  enough = enough;
  count = refl;
  files = refl;
  pinned_stay = refl;
  bytes = refl;
}

behind : (P : CacheEntry → Type 0) (xs ys : Entries) → All P (xs ++ ys) → All P ys
behind P [] ys h = h
behind P (x ∷ xs) ys h = behind P xs ys h.1

take-IsEvicted :
    (most : ℤ) (total freed : ℕ) (e : CacheEntry) (rest rows : Entries) (r : EvictRun)
    → over_budget most (total - freed) ≡ true
    → IsSole rows e
    → Older e rest
    → IsEvicted most total
        (freed + e.size_bytes)
        rest
        (delete_where (is_entry e.attachment_id) rows)
        r
    → IsEvicted most total freed (e ∷ rest) rows (one_more e.relative_path r)
take-IsEvicted most total freed e rest rows r over sole older v = record {
  no_error = v.no_error;
  taken = e ∷ v.taken;
  kept = v.kept;
  in_order = ap (λ l. e ∷ l) v.in_order;
  needed = (over, v.needed);
  oldest = (
    behind (λ b. e.last_used_ms ≤ b.last_used_ms) v.taken v.kept (subst (Older e) v.in_order older),
    v.oldest,
  );
  enough = v.enough;
  count = ap suc v.count;
  files = ap (λ l. e.relative_path ∷ l) v.files;
  pinned_stay = v.pinned_stay ∙ deleted_pinned rows e sole;
  bytes = let b = deleted_bytes rows e sole in let k = v.bytes in omega arith;
}

deletion :
    (env : EvictEnv) (rows : Entries) (e : CacheEntry)
    → Undisturbed env
    → IsSole rows e
    → write
        (env.delete_fate e.attachment_id)
        (delete_entry e.attachment_id)
        (env.before_delete e.attachment_id rows)
      ≡ (ok e.relative_path, delete_where (is_entry e.attachment_id) rows)
deletion env rows e u sole =
    rw (u.committed e.attachment_id, u.alone e.attachment_id rows) (deleted rows e sole)

after_delete-resolved :
    (env : EvictEnv) (freed : ℕ) (e : CacheEntry) (rest : ℕ → Entries → EvictRun) (path : String)
    (rows : Entries)
    → env.resolves path ≡ true
    → after_delete env freed e rest (ok path, rows)
      ≡ one_more path (rest (freed + e.size_bytes) rows)
unfolding after_delete
after_delete-resolved env freed e rest path rows h = rw h refl

evict_entries-IsEvicted :
    (env : EvictEnv) (most : ℤ) (total : ℕ) (todo : Entries) (freed : ℕ) (rows : Entries)
    → Undisturbed env
    → All (λ e. env.resolves e.relative_path ≡ true) todo
    → Distinct todo
    → OldestFirst todo
    → All (IsSole rows) todo
    → IsEvicted most total freed todo rows (evict_entries env most total todo freed rows)
unfolding evict_entries
evict_entries-IsEvicted env most total [] freed rows u p d o s =
    stop-IsEvicted most total freed [] rows (inr refl)
evict_entries-IsEvicted env most total (e ∷ rest) freed rows u p d o s =
    if-both (IsEvicted most total freed (e ∷ rest) rows) (over_budget most (total - freed)) _ _
      (λ t.
        subst
          (λ w.
            IsEvicted most total freed (e ∷ rest) rows
              (after_delete env freed e (evict_entries env most total rest) w))
          (sym (deletion env rows e u s.0))
          (subst (IsEvicted most total freed (e ∷ rest) rows)
            (sym (
              after_delete-resolved env freed e (evict_entries env most total rest) e.relative_path
                (delete_where (is_entry e.attachment_id) rows) p.0))
            (take-IsEvicted most total freed e rest rows _ t s.0 o.0 (
              evict_entries-IsEvicted env most total rest (freed + e.size_bytes) _ u p.1 d.1 o.1
                (IsSole-delete_where rows rest e d.0 s.1)))))
      (λ f. stop-IsEvicted most total freed (e ∷ rest) rows (inl f))

resolves-listed :
    (le : String → String → Bool) (P : CacheEntry → Type 0) (rows : Entries)
    → All P rows
    → All P (unpinned le rows)
unfolding unpinned
resolves-listed le P rows h =
    by_use-All le P _
      (by_use-All le P _ (All-weaken _ P _ (λ e p. p.0) (select-All P is_unpinned rows h)))

evict_listed-IsEvicted :
    (le : String → String → Bool) (env : EvictEnv) (most : ℤ) (rows : Entries)
    → Undisturbed env
    → Distinct rows
    → All (λ e. env.resolves e.relative_path ≡ true) rows
    → IsEvicted most
        (cache_bytes rows)
        0
        (unpinned le rows)
        rows
        (evict_listed le env most none rows)
unfolding evict_listed
evict_listed-IsEvicted le env most rows u d p =
    if-both (IsEvicted most (cache_bytes rows) 0 (unpinned le rows) rows)
      (over_budget most (cache_bytes rows)) _ _
      (λ _.
        evict_entries-IsEvicted env most (cache_bytes rows) (unpinned le rows) 0 rows u
          (resolves-listed le _ rows p) (unpinned-Distinct le rows d)
          (unpinned-Oldest_first le rows) (unpinned-IsSole le rows d))
      (λ f.
        let same : cache_bytes rows ≡ cache_bytes rows - 0 = omega arith in
        stop-IsEvicted most (cache_bytes rows) 0 (unpinned le rows) rows
          (inl (subst (λ n. over_budget most n ≡ false) same f)))

-- An eviction that nobody disturbs removes no more than it has to: the entries that it takes are the
-- first ones of those that are not pinned, used no later than the ones that it leaves; each was taken
-- while the cache was over its budget, and it stops within the budget or with no such entry left. Pinned rows
-- stay, the bytes that it reports are those that went, and it unlinks the files of the rows that it
-- took. Before it no attachment has two rows, and every row's path lies in the cache.
pub evict-IsEvicted :
    (le : String → String → Bool) (env : EvictEnv) (most : ℤ) (rows : Entries)
    → Undisturbed env
    → Distinct rows
    → All (λ e. env.resolves e.relative_path ≡ true) rows
    → IsEvicted most (cache_bytes rows) 0 (unpinned le rows) rows (evict le env most rows)
unfolding evict
evict-IsEvicted le env most rows u d p =
    subst
      (λ x.
        IsEvicted most (cache_bytes rows) 0 (unpinned le rows) rows
          (evict_listed le env most x rows))
      (sym u.listed) (evict_listed-IsEvicted le env most rows u d p)
