-- ===== src/Media/Cache/Evicting.antt =====
-- internal/media/cache.go: what an eviction takes, and what it leaves.
use agent_gm.Prelude.{
  ◌≤◌, arith, ◌+◌, ◌≡◌, refl, sym, ◌∙◌, Bool, true, false, String, [], ◌∷◌, inl, inr, All, All-each,
  All-weaken, arith, str_eq, eq_iff, if-both, Bool-cases,
}
use agent_gm.Prelude.Rows.{select_where, delete_where, count_where}
use agent_gm.Media.Cache.{
  CacheEntry, Entries, is_entry, is_unpinned, cache_bytes, used_before, insert_used, by_use,
  unpinned,
}

-- No two rows are of one attachment.
abbrev pub Apart : CacheEntry → Entries → Type 0
Apart e rows = All (λ x. str_eq x.attachment_id e.attachment_id ≡ false) rows

abbrev pub Distinct : Entries → Type 0
Distinct [] = Unit {0}
Distinct (e ∷ rest) = Apart e rest × Distinct rest

-- A deletion splits the rows.
pub bytes-split :
    (p : CacheEntry → Bool) (rows : Entries)
    → cache_bytes (delete_where p rows) + cache_bytes (select_where p rows) ≡ cache_bytes rows
unfolding cache_bytes delete_where select_where
bytes-split p [] = omega arith
bytes-split p (e ∷ rows) = ground (arith, bytes-split p rows)

count-split :
    (q p : CacheEntry → Bool) (rows : Entries)
    → count_where q (delete_where p rows) + count_where q (select_where p rows) ≡ count_where q rows
unfolding count_where delete_where select_where
count-split q p [] = omega arith
count-split q p (e ∷ rows) = ground (arith, count-split q p rows)

pub select-delete :
    (q p : CacheEntry → Bool) (rows : Entries)
    → All (λ e. p e ≡ true → q e ≡ false) rows
    → select_where q (delete_where p rows) ≡ select_where q rows
unfolding select_where delete_where
select-delete q p [] h = refl
select-delete q p (e ∷ rows) h = ground (arith, select-delete q p rows h.1, h.0)

-- An entry is the only row of its attachment, and may be evicted.
abbrev pub IsSole : Entries → CacheEntry → Type 0
IsSole rows e = (select_where (is_entry e.attachment_id) rows ≡ e ∷ []) × (e.pinned ≡ false)

other_name :
    (e e' x : CacheEntry)
    → str_eq e'.attachment_id e.attachment_id ≡ false
    → is_entry e.attachment_id x ≡ true
    → is_entry e'.attachment_id x ≡ false
other_name e e' x differ same = elim (Bool-cases (is_entry e'.attachment_id x)) [
  | inr no_match ↦ no_match
  | inl match ↦
      let a = (eq_iff x.attachment_id e.attachment_id).0 same in
      let b = (eq_iff x.attachment_id e'.attachment_id).0 match in
      let c = (eq_iff e'.attachment_id e.attachment_id).1 (sym b ∙ a) in cc
]

pub IsSole-delete_where :
    (rows rest : Entries) (e : CacheEntry)
    → Apart e rest
    → All (IsSole rows) rest
    → All (IsSole (delete_where (is_entry e.attachment_id) rows)) rest
IsSole-delete_where rows [] e a h = tt
IsSole-delete_where rows (x ∷ rest) e a h =
    let kept = select-delete (is_entry x.attachment_id) (is_entry e.attachment_id) rows (
      All-each (λ y. is_entry e.attachment_id y ≡ true → is_entry x.attachment_id y ≡ false) rows
        (λ y. other_name e x y a.0)) in
    ((kept ∙ h.0.0, h.0.1), IsSole-delete_where rows rest e a.1 h.1)

none_selected :
    (rows : Entries) (e : CacheEntry)
    → Apart e rows
    → select_where (is_entry e.attachment_id) rows ≡ []
unfolding select_where
none_selected [] e a = refl
none_selected (x ∷ rows) e a = rw (a.0) (none_selected rows e a.1)

str_eq_flip :
    (a b : CacheEntry)
    → str_eq a.attachment_id b.attachment_id ≡ false
    → str_eq b.attachment_id a.attachment_id ≡ false
str_eq_flip a b h = elim (Bool-cases (str_eq b.attachment_id a.attachment_id)) [
  | inr f ↦ f
  | inl t ↦
      let same = (eq_iff b.attachment_id a.attachment_id).0 t in
      let e = (eq_iff a.attachment_id b.attachment_id).1 (sym same) in cc
]

eq_self : (s : String) → str_eq s s ≡ true
eq_self s = (eq_iff s s).1 refl

-- In rows without repetition each row is the only one of its attachment.
sole_self :
    (rows : Entries)
    → Distinct rows
    → All (λ e. select_where (is_entry e.attachment_id) rows ≡ e ∷ []) rows
unfolding select_where
sole_self [] d = tt
sole_self (x ∷ rows) d = (
  rw (eq_self x.attachment_id) (rw (none_selected rows x d.0) refl),
  later rows rows d.0 (sole_self rows d.1),
)
  where
    later :
        (all rest : Entries)
        → Apart x rest
        → All (λ e. select_where (is_entry e.attachment_id) all ≡ e ∷ []) rest
        → All (λ e. select_where (is_entry e.attachment_id) (x ∷ all) ≡ e ∷ []) rest
    later all [] a h = tt
    later all (e ∷ rest) a h = (rw (str_eq_flip e x a.0) h.0, later all rest a.1 h.1)

pub select-All :
    (P : CacheEntry → Type 0) (p : CacheEntry → Bool) (rows : Entries)
    → All P rows
    → All (λ e. P e × (p e ≡ true)) (select_where p rows)
unfolding select_where
select-All P p [] h = tt
select-All P p (e ∷ rows) h = elim (Bool-cases (p e)) [
  | inl t ↦ rw t ((h.0, t), select-All P p rows h.1)
  | inr f ↦ rw f (select-All P p rows h.1)
]

select-Distinct :
    (p : CacheEntry → Bool) (rows : Entries) → Distinct rows → Distinct (select_where p rows)
unfolding select_where
select-Distinct p [] d = tt
select-Distinct p (e ∷ rows) d = elim (Bool-cases (p e)) [
  | inl t ↦ rw t (
    All-weaken _ (λ x. str_eq x.attachment_id e.attachment_id ≡ false) (select_where p rows)
        (λ x h. h.0) (select-All (λ x. str_eq x.attachment_id e.attachment_id ≡ false) p rows d.0),
    select-Distinct p rows d.1,
  )
  | inr f ↦ rw f (select-Distinct p rows d.1)
]

module _ (le : String → String → Bool) where
  insert_used-All :
      (P : CacheEntry → Type 0) (a : CacheEntry) (rows : Entries)
      → P a
      → All P rows
      → All P (insert_used le a rows)
  unfolding insert_used
  insert_used-All P a [] p h = (p, tt)
  insert_used-All P a (b ∷ rows) p h =
      if-both (All P) (used_before le a b) _ _ (λ _. (p, h))
        (λ _. (h.0, insert_used-All P a rows p h.1))

  pub by_use-All : (P : CacheEntry → Type 0) (rows : Entries) → All P rows → All P (by_use le rows)
  unfolding by_use
  by_use-All P [] h = tt
  by_use-All P (a ∷ rows) h = insert_used-All P a (by_use le rows) h.0 (by_use-All P rows h.1)

  insert_used-Distinct :
      (a : CacheEntry) (rows : Entries)
      → Apart a rows
      → Distinct rows
      → Distinct (insert_used le a rows)
  unfolding insert_used
  insert_used-Distinct a [] h d = (tt, tt)
  insert_used-Distinct a (b ∷ rows) h d =
      if-both Distinct (used_before le a b) _ _ (λ _. (h, d))
        (λ _. (
          insert_used-All (λ x. str_eq x.attachment_id b.attachment_id ≡ false) a rows
              (str_eq_flip b a h.0) d.0,
          insert_used-Distinct a rows h.1 d.1,
        ))

  by_use-Distinct : (rows : Entries) → Distinct rows → Distinct (by_use le rows)
  unfolding by_use
  by_use-Distinct [] d = tt
  by_use-Distinct (a ∷ rows) d =
      insert_used-Distinct a (by_use le rows) (by_use-All _ rows d.0) (by_use-Distinct rows d.1)

  pub unpinned-Distinct : (rows : Entries) → Distinct rows → Distinct (unpinned le rows)
  unfolding unpinned
  unpinned-Distinct rows d =
      by_use-Distinct _ (by_use-Distinct _ (select-Distinct is_unpinned rows d))

  pub unpinned-IsSole : (rows : Entries) → Distinct rows → All (IsSole rows) (unpinned le rows)
  unfolding unpinned
  unpinned-IsSole rows d = by_use-All _ _ (
      by_use-All _ _ (
        All-weaken _ (IsSole rows) _ (λ e h. (h.0, not_pinned e h.1))
          (select-All _ is_unpinned rows (sole_self rows d))))
    where
      not_pinned : (e : CacheEntry) → is_unpinned e ≡ true → e.pinned ≡ false
      not_pinned e h = ground arith

-- The entry was used no later than all others.
abbrev pub Older : CacheEntry → Entries → Type 0
Older a rows = All (λ b. a.last_used_ms ≤ b.last_used_ms) rows

abbrev pub OldestFirst : Entries → Type 0
OldestFirst [] = Unit {0}
OldestFirst (a ∷ rest) = Older a rest × OldestFirst rest

used_before-true :
    (le : String → String → Bool) (a b : CacheEntry)
    → used_before le a b ≡ true
    → a.last_used_ms ≤ b.last_used_ms
used_before-true le a b h = ground arith

used_before-false :
    (le : String → String → Bool) (a b : CacheEntry)
    → used_before le a b ≡ false
    → b.last_used_ms ≤ a.last_used_ms
used_before-false le a b h = ground arith

Older-earlier :
    (a b : CacheEntry) (rows : Entries)
    → a.last_used_ms ≤ b.last_used_ms
    → Older b rows
    → Older a rows
Older-earlier a b rows h older =
    All-weaken (λ x. b.last_used_ms ≤ x.last_used_ms) (λ x. a.last_used_ms ≤ x.last_used_ms) rows
      (λ x k. omega arith) older

insert_used-Oldest_first :
    (le : String → String → Bool) (a : CacheEntry) (rows : Entries)
    → OldestFirst rows
    → OldestFirst (insert_used le a rows)
unfolding insert_used
insert_used-Oldest_first le a [] h = (tt, tt)
insert_used-Oldest_first le a (b ∷ rows) h =
    if-both OldestFirst (used_before le a b) _ _
      (λ t. let k = used_before-true le a b t in ((k, Older-earlier a b rows k h.0), h))
      (λ f. (
        insert_used-All le (λ x. b.last_used_ms ≤ x.last_used_ms) a rows
            (used_before-false le a b f) h.0,
        insert_used-Oldest_first le a rows h.1,
      ))

by_use-Oldest_first : (le : String → String → Bool) (rows : Entries) → OldestFirst (by_use le rows)
unfolding by_use
by_use-Oldest_first le [] = tt
by_use-Oldest_first le (a ∷ rows) =
    insert_used-Oldest_first le a (by_use le rows) (by_use-Oldest_first le rows)

pub unpinned-Oldest_first :
    (le : String → String → Bool) (rows : Entries) → OldestFirst (unpinned le rows)
unfolding unpinned
unpinned-Oldest_first le rows = by_use-Oldest_first le (by_use le (select_where is_unpinned rows))
