-- ===== src/Store/Operations/History.antt =====
-- internal/store/operations.go and erasure.go: the table `operations` under any sequence of the store's
-- calls that write it, whatever the fate of each.
use agent_gm.Prelude.{
  ℕ, ◌<◌, ◌≡◌, refl, sym, ap, subst, ◌⊎◌, inl, inr, Bool, true, false, ◌&&◌, Option, none, some,
  String, List, [], ◌∷◌, ◌++◌, arith, str_eq, eq_iff, All, if◌then◌else◌, Bool-cases, Option-cases,
}
use agent_gm.Prelude.Rows.{first_where, update_where, All-first_where}
use agent_gm.Store.Write.{Fate, Result, ok, write-keeps}
use agent_gm.Store.Operations.{
  Row, Table, Operation, Settlement, insert_operation, settle_operation, set_operation_tmp_id,
  set_operation_media_size, recover_running_operations, reap_pending_operations,
  sweep_idempotency_keys, has_id, new_row, clashes, insert_row, settle_found, settle_row, give_up,
  is_running, is_overdue, is_stale, same_status, operation_terminal, operation_transition_allowed,
  reread,
}
use agent_gm.Store.Erasure.{erase_account, of_account}
use agent_gm.Store.Operations.Rules.{
  IsRowOk, Ages, Ages-refl, Ages-trans, new_row-IsRowOk, settle_row-IsRowOk, settle_row-Ages,
  settle_row-id, give_up-IsRowOk, give_up-Ages, give_up-id,
}
use agent_gm.Store.Operations.Changes.{
  IsSound, Spent, Change, kept, appended, updated, deleted, Change-IsSound, Change-Follows,
  update_found,
}
use agent_gm.Store.Operations.Sweeps.{read_back-update, reap_each-update}

-- The calls of the store that write the table: those of operations.go, and EraseAccount.
pub data Call : Type 0 where
  insert : String → Operation → Call
  settle : String → Settlement → Call
  set_tmp_id : String → String → Call
  set_media_size : String → ℕ → Call
  recover : Call
  reap : ℕ → Call
  sweep : ℕ → Call
  erase : String → Call

-- A call, when it is made, and what becomes of it.
pub record Event : Type 0 where
  pub fate : Fate
  pub now : ℕ
  pub call : Call

abbrev run_call : Call → Fate → ℕ → Table → Table
run_call (insert minted o) fate now t = (insert_operation fate now minted o t).1
run_call (settle id st) fate now t = (settle_operation fate now id st t).1
run_call (set_tmp_id id tmp) fate now t = (set_operation_tmp_id fate now id tmp t).1
run_call (set_media_size id size) fate now t = (set_operation_media_size fate now id size t).1
run_call recover fate now t = (recover_running_operations fate now t).1
run_call (reap timeout) fate now t = (reap_pending_operations fate now timeout t).1
run_call (sweep ttl) fate now t = (sweep_idempotency_keys fate now ttl t).1
run_call (erase account) fate now t = (erase_account fate account t).1

pub step : Table → Event → Table
step t e = run_call e.call e.fate e.now t

pub run : Table → List Event → Table
run t [] = t
run t (e ∷ es) = run (step t e) es

answer_table :
    {A : Type 0} {a b : A} {t t' : Table}
    → ◌≡◌ {A = Result (A × Table)} (ok (a, t)) (ok (b, t'))
    → t ≡ t'
answer_table h = cc

insert_row-Change :
    {Erased : Row → Type 0} (now : ℕ) (o : Operation) (t t' : Table) (u : Unit {0})
    → insert_row (new_row now o) t ≡ ok (u, t')
    → Change Erased t t'
unfolding insert_row
insert_row-Change now o t t' u h = elim (Bool-cases (clashes (new_row now o) t)) [
  | inl taken ↦ cc (rw taken at h)
  | inr free ↦
      rw (← answer_table (rw free at h)) (appended (new_row now o) (new_row-IsRowOk now o) free)
]

reread_table : (r : Option Row) (t t' : Table) (o : Operation) → reread r t ≡ ok (o, t') → t ≡ t'
reread_table none t t' o h = cc
reread_table (some r) t t' o h = cc

module _ {Erased : Row → Type 0} (now : ℕ) (id : String) (st : Settlement) (t t' : Table)
    (o : Operation) (later : 0 < now) (v : IsSound t) where
  settled-Change :
      (cur : Row)
      → first_where (has_id id) t ≡ some cur
      → settle_found now id st (some cur) t ≡ ok (o, t')
      → Change Erased t t'
  unfolding settle_found
  settled-Change cur found h =
      elim (Bool-cases (operation_transition_allowed cur.status st.status)) [
        | inr refused ↦ cc (rw refused at h)
        | inl move ↦
            let permitted = λ (r : Row). operation_transition_allowed r.status st.status in
            rw
              (
                ← reread_table _ _ t' o (rw move at h),
                update_found (settle_row now st) permitted id t cur v.distinct found move,
              )
              (updated (λ r. has_id id r && permitted r) (settle_row now st) (settle_row-id now st)
                λ r okr e.
                  let moves : permitted r ≡ true = ground (arith, eq_iff r.id id) in
                  (
                    settle_row-IsRowOk now st r later okr moves,
                    settle_row-Ages now st r later okr moves,
                  ))
      ]

  settle_found-Change :
      settle_found now id st (first_where (has_id id) t) t ≡ ok (o, t') → Change Erased t t'
  unfolding settle_found
  settle_found-Change h = elim (Option-cases (first_where (has_id id) t)) [
    | inl absent ↦ cc (rw absent at h)
    | inr (cur, found) ↦ settled-Change cur found (rw found at h)
  ]

live_running : (r : Row) → is_running r ≡ true → operation_terminal r.status ≡ false
unfolding same_status operation_terminal
live_running r h = ground arith

live_overdue :
    (now timeout : ℕ) (r : Row)
    → is_overdue now timeout r ≡ true
    → operation_terminal r.status ≡ false
unfolding same_status operation_terminal
live_overdue now timeout r h = ground arith

given_up-Change :
    {Erased : Row → Type 0} (now : ℕ) (code : String) (p : Row → Bool) (t : Table)
    → 0 < now
    → ((r : Row) → p r ≡ true → operation_terminal r.status ≡ false)
    → Change Erased t (update_where p (give_up now code) t)
given_up-Change now code p t later live =
    updated p (give_up now code) (give_up-id now code) λ r okr e. (
      give_up-IsRowOk now code r later okr (live r e),
      give_up-Ages now code r later okr (live r e),
    )

-- The call erases the account of the row.
abbrev pub IsErasedBy : Call → Row → Type 0
IsErasedBy c r = c ≡ erase r.account_id

run_call-Change :
    (c : Call) (fate : Fate) (now : ℕ) (t : Table)
    → 0 < now
    → IsSound t
    → Change (IsErasedBy c) t (run_call c fate now t)
unfolding insert_operation settle_operation set_operation_tmp_id set_operation_media_size
    recover_running_operations reap_pending_operations sweep_idempotency_keys erase_account
run_call-Change (insert minted o) fate now t later v =
    let named = record o { id = if str_eq o.id "" then minted else o.id } in
    write-keeps (Change (IsErasedBy (insert minted o)) t) fate _ t kept
      λ u t' e. insert_row-Change now named t t' u e
run_call-Change (settle id st) fate now t later v =
    write-keeps (Change (IsErasedBy (settle id st)) t) fate _ t kept
      λ o t' e. settle_found-Change now id st t t' o later v e
run_call-Change (set_tmp_id id tmp) fate now t later v =
    let f = λ (r : Row). record r { tmp_id = some tmp; updated_at_ms = now } in
    write-keeps (Change (IsErasedBy (set_tmp_id id tmp)) t) fate _ t kept λ u t' e.
      subst (Change (IsErasedBy (set_tmp_id id tmp)) t) (answer_table e) (
        updated (has_id id) f (λ r. refl)
          (λ r okr m. (ground (arith, okr), ground (arith, Ages-refl r))))
run_call-Change (set_media_size id size) fate now t later v =
    let f = λ (r : Row). record r { media_size_bytes = some size; updated_at_ms = now } in
    write-keeps (Change (IsErasedBy (set_media_size id size)) t) fate _ t kept λ u t' e.
      subst (Change (IsErasedBy (set_media_size id size)) t) (answer_table e) (
        updated (has_id id) f (λ r. refl)
          (λ r okr m. (ground (arith, okr), ground (arith, Ages-refl r))))
run_call-Change recover fate now t later v =
    write-keeps (Change (IsErasedBy recover) t) fate _ t kept λ os t' e.
      let back =
        read_back-update is_running (give_up now "crash_recovered")
          (give_up-id now "crash_recovered") t v.distinct in
      rw (← answer_table (rw back at e))
        (given_up-Change now "crash_recovered" is_running t later live_running)
run_call-Change (reap timeout) fate now t later v =
    write-keeps (Change (IsErasedBy (reap timeout)) t) fate _ t kept λ os t' e.
      rw (← answer_table (rw (reap_each-update now (is_overdue now timeout) t v.distinct) at e)) (
        given_up-Change now "pending_timeout" (is_overdue now timeout) t later
          (live_overdue now timeout))
run_call-Change (sweep ttl) fate now t later v =
    write-keeps (Change (IsErasedBy (sweep ttl)) t) fate _ t kept λ n t' e.
      subst (Change (IsErasedBy (sweep ttl)) t) (answer_table e)
        (deleted (is_stale now ttl) (λ r m. inl (ground arith)))
run_call-Change (erase account) fate now t later v =
    write-keeps (Change (IsErasedBy (erase account)) t) fate _ t kept λ n t' e.
      subst (Change (IsErasedBy (erase account)) t) (answer_table e) (
        deleted (of_account account)
          (λ r m. inr (ap erase (sym ((eq_iff r.account_id account).0 m)))))

abbrev pub Dated : Event → Type 0
Dated e = 0 < e.now

step-Change :
    (t : Table) (e : Event) → Dated e → IsSound t → Change (IsErasedBy e.call) t (step t e)
unfolding step
step-Change t e later v = run_call-Change e.call e.fate e.now t later v

-- Whatever sequence of calls that write operations the store serves, an erasure of an account among
-- them, and whatever becomes of each, a table of distinct IDs and sound rows stays one: `terminal` is derived from the status, exactly the terminal rows carry
-- the time at which they became so, and only corrected rows a time of correction. The clock reads
-- past the epoch at each call.
pub run-IsSound : (t : Table) (es : List Event) → All Dated es → IsSound t → IsSound (run t es)
unfolding run
run-IsSound t [] later v = v
run-IsSound t (e ∷ es) later v =
    run-IsSound (step t e) es later.1 (Change-IsSound (step-Change t e later.0 v) v)

-- A later row of the operation, or the call that deleted it: when it was terminal, or with its account.
abbrev pub Outlives : String → Row → Table → List Event → Type 0
Outlives id r t es =
    ((r' : Row) × (first_where (has_id id) (run t es) ≡ some r') × Ages r r')
    ⊎ ((before : List Event) × (e : Event) × (after : List Event) × (s : Row) × (es
          ≡ before ++ e ∷ after)
        × (first_where (has_id id) (run t before) ≡ some s)
        × Ages r s
        × Spent (IsErasedBy e.call) s
        × (first_where (has_id id) (step (run t before) e) ≡ none))

-- Whatever sequence of calls that write operations the store serves, and whatever becomes of each, an
-- operation's row ages by the transition table, keeps its identity, its key and its fingerprint, the
-- time at which it became terminal and the time of its correction; or some call deleted it, which
-- found it terminal or was the erasure of its account. The table is sound at first, and the clock
-- reads past the epoch at each call.
pub run-Outlives :
    (t : Table) (es : List Event) (id : String) (r : Row)
    → All Dated es
    → IsSound t
    → first_where (has_id id) t ≡ some r
    → Outlives id r t es
unfolding run
run-Outlives t [] id r later v found = inl (r, found, Ages-refl r)
run-Outlives t (e ∷ es) id r later v found =
    let change = step-Change t e later.0 v in
    let v' = Change-IsSound change v in
    elim (Change-Follows id r change v found) [
      | inr (gone, terminal) ↦ inr ([], e, es, r, refl, found, Ages-refl r, terminal, gone)
      | inl (s, found', ages) ↦
          let aged = λ (r' : Row) (more : Ages s r').
            Ages-trans r s r' (All-first_where IsRowOk _ t r v.rows found)
              (All-first_where IsRowOk _ (step t e) s v'.rows found') ages more in
          elim (run-Outlives (step t e) es id s later.1 v' found') [
            | inl (r', there, more) ↦ inl (r', there, aged r' more)
            | inr (before, e', after, s', eq, there, more, terminal, gone) ↦
                inr (
                  e ∷ before,
                  e',
                  after,
                  s',
                  ap (λ l. e ∷ l) eq,
                  there,
                  aged s' more,
                  terminal,
                  gone,
                )
          ]
    ]
