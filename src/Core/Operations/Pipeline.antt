-- ===== src/Core/Operations/Pipeline.antt =====
-- internal/core/operations.go: when the pipeline makes the library call, and when it must not.
use agent_gm.Prelude.{
  ◌≡◌, refl, ◌≢◌, ◌⊎◌, inl, inr, Option, none, some, String, [], ◌∷◌, arith, str_eq, eq_iff,
  if◌then◌else◌, Bool-cases, Option-cases,
}
use agent_gm.Prelude.Rows.{first_where}
use agent_gm.Store.Write.{Result, ok, err}
use agent_gm.Store.Operations.{
  Row, Table, Operation, has_key, has_id, scan_operation, insert_operation, operation,
  operation_by_key, key_used_by_another_account,
}
use agent_gm.Gm.Errors.{GoError}
use agent_gm.Store.Operations.Inserts.{insert_operation-taken}
use agent_gm.Core.Operations.{
  Runtime, Env, Kind, kind_text, Request, Call, Run, run_operation, with_key, with_fingerprint,
  keyed_or_not, refuse_crossed, look_up, replay_or, insert_and_call, after_insert, call_and_settle,
  respond, not_found, KeyFault, OpError, validate_idempotency_key, conflict, new_operation, replay,
  refused,
}

-- A call with a key, past the checks of its shape and its body.
module _ (rt : Runtime) (env : Env) (kind : Kind) (account : String) (req : Request) (call : Call)
    (t : Table) where
  -- A keyed request whose key names an earlier operation of the same authorization, account and
  -- kind makes no library call and writes nothing: with the same fingerprint it is answered with
  -- that operation as it stands, and with another one it is refused as a conflict. The key and the
  -- body are well-formed, the key is not used for another account, and both lookups succeed.
  pub run_operation-replay :
      (fp : String) (r : Row)
      → req.key ≢ ""
      → validate_idempotency_key rt req.key ≡ none
      → req.fingerprint ≡ some fp
      → key_used_by_another_account env.crossed_io req.authorization_id
          (kind_text kind)
          req.key
          account
          t
        ≡ ok none
      → env.lookup_io ≡ none
      → first_where
          (has_key req.authorization_id account (kind_text kind) req.key)
          (env.before_lookup t)
        ≡ some r
      → run_operation rt env kind account req call t ≡ (
          if str_eq r.request_fingerprint fp
          then replay (scan_operation r) (env.before_lookup t)
          else refused (conflict req.key) (env.before_lookup t))
  unfolding run_operation with_key with_fingerprint keyed_or_not refuse_crossed look_up replay_or
      operation_by_key scan_operation
  run_operation-replay fp r keyed shape body crossed io earlier = ground (arith, eq_iff req.key "")

-- What holds of every refusal, of every replay and of a fresh operation holds of the request.
module _ {ℓ} (P : Run → Type ℓ) (rt : Runtime) (env : Env) (kind : Kind) (account : String)
    (req : Request) (call : Call) (refusal : (e : OpError) (t : Table) → P (refused e t))
    (replayed : (o : Operation) (t : Table) → P (replay o t)) where
  replay_or-stage :
      (fp : String) (t : Table) (r : Result Operation) (fresh : Run)
      → P fresh
      → P (replay_or req fp t r fresh)
  unfolding replay_or
  replay_or-stage fp t (ok existing) fresh h =
      elim (Bool-cases (str_eq existing.request_fingerprint fp)) [
        | inl same ↦ rw same (replayed existing t)
        | inr other ↦ rw other (refusal _ t)
      ]
  replay_or-stage fp t (err e) fresh h = elim (Bool-cases (not_found e)) [
    | inl absent ↦ rw absent h
    | inr broken ↦ rw broken (refusal _ t)
  ]

  crossed-stage :
      (t : Table) (r : Result (Option String)) (next : Run)
      → P next
      → P (refuse_crossed account req t r next)
  unfolding refuse_crossed
  crossed-stage t (err e) next h = refusal _ t
  crossed-stage t (ok none) next h = h
  crossed-stage t (ok (some other)) next h = refusal _ t

  fingerprint-stage :
      (fp : Option String) (t : Table)
      → ((f : String) → P (keyed_or_not rt env kind account req call f t))
      → P (with_fingerprint rt env kind account req call fp t)
  unfolding with_fingerprint
  fingerprint-stage none t h = refusal _ t
  fingerprint-stage (some fp) t h = h fp

  key-stage :
      (fault : Option KeyFault) (t : Table)
      → ((f : String) → P (keyed_or_not rt env kind account req call f t))
      → P (with_key rt env kind account req call fault t)
  unfolding with_key
  key-stage (some fault) t h = refusal _ t
  key-stage none t h = fingerprint-stage req.fingerprint t h

  keyed-stage :
      (t : Table)
      → (req.key ≡ "" → (fp : String) → P (insert_and_call rt env kind account req call fp t))
      → (req.key ≢ ""
          → (fp : String)
          → P (insert_and_call rt env kind account req call fp (env.before_lookup t)))
      → P (run_operation rt env kind account req call t)
  unfolding run_operation keyed_or_not look_up
  keyed-stage t keyless keyed = key-stage (validate_idempotency_key rt req.key) t λ fp.
      elim (Bool-cases (str_eq req.key "")) [
        | inl without ↦ rw without (keyless ((eq_iff req.key "").0 without) fp)
        | inr with_it ↦ rw with_it (
            crossed-stage t _ _ (
              replay_or-stage fp (env.before_lookup t) _ _
                (keyed (ground (arith, eq_iff req.key "")) fp)))
      ]

module _ (rt : Runtime) (env : Env) (kind : Kind) (account : String) (req : Request)
    (call : Call) where
  -- The table when the request inserts its operation.
  abbrev pub insert_table : Table → Table
  insert_table t = env.before_insert (if str_eq req.key "" then t else env.before_lookup t)

  abbrev pub inserts : String → Table → Result (Unit {0}) × Table
  inserts fp t =
      insert_operation env.insert_fate env.insert_now "" (new_operation env kind account req fp) t

  -- The run makes no library call, or one: after its insert at the table `t` was committed, with the
  -- operation as it was then read under the request's own ID.
  abbrev pub SendsOnce : Table → Run → Type 0
  SendsOnce t run =
      (run.sent ≡ [])
      ⊎ ((fp : String) × (row : Row) × (run.sent ≡ scan_operation row ∷ [])
          × ((inserts fp t).0 ≡ ok tt)
          × (first_where (has_id env.operation_id) (env.before_reread (inserts fp t).1) ≡ some row))

  respond-sent :
      (op : Operation) (ce : Option GoError) (r : Result Operation × Table)
      → (respond op ce r).sent ≡ op ∷ []
  unfolding respond
  respond-sent op ce (ok o, t) = refl
  respond-sent op ce (err e, t) = refl

  call_and_settle-sent :
      (r : Result Operation) (t : Table)
      → ((call_and_settle rt env call r t).sent ≡ [])
        ⊎ ((op : Operation) × (r ≡ ok op) × ((call_and_settle rt env call r t).sent ≡ op ∷ []))
  unfolding call_and_settle
  call_and_settle-sent (err e) t = inl refl
  call_and_settle-sent (ok op) t = elim (Bool-cases env.crashes) [
    | inl dead ↦ rw dead (inl refl)
    | inr alive ↦ rw alive (inr (op, refl, respond-sent op _ _))
  ]

  operation_read :
      (io : Option String) (id : String) (t : Table) (op : Operation)
      → operation io id t ≡ ok op
      → (row : Row) × (first_where (has_id id) t ≡ some row) × (op ≡ scan_operation row)
  unfolding operation
  operation_read (some msg) id t op h = cc
  operation_read none id t op h = elim (Option-cases (first_where (has_id id) t)) [
    | inl absent ↦ cc (rw absent at h)
    | inr (row, found) ↦ (row, found, ground arith)
  ]

  after_insert-sent :
      (fp : String) (t : Table) (r : Result (Unit {0}) × Table)
      → inserts fp t ≡ r
      → SendsOnce t (after_insert rt env call r)
  unfolding after_insert
  after_insert-sent fp t (err e, t') e' = inl refl
  after_insert-sent fp t (ok u, t') e' =
      let t2 = env.before_reread t' in
      elim (call_and_settle-sent (operation env.reread_io env.operation_id t2) t2) [
        | inl none_sent ↦ inl none_sent
        | inr (op, got, one_sent) ↦
            let (row, found, scanned) = operation_read env.reread_io env.operation_id t2 op got in
            inr (fp, row, rw (← scanned) one_sent, rw e' refl, rw e' found)
      ]

  -- Whatever fails, and whatever others do to the table in between, a request makes the library call
  -- at most once: after its own insert was committed, with the operation that it then read back.
  pub run_operation-SendsOnce :
      (t : Table) → SendsOnce (insert_table t) (run_operation rt env kind account req call t)
  unfolding insert_and_call
  run_operation-SendsOnce t =
      keyed-stage (SendsOnce (insert_table t)) rt env kind account req call (λ e t'. inl refl)
        (λ o t'. inl refl) t
        (λ keyless fp. after_insert-sent fp _ _ (ground (arith, eq_iff req.key "")))
        (λ keyed fp. after_insert-sent fp _ _ (ground (arith, eq_iff req.key "")))

  -- If another request has committed an operation under the same authorization, account, kind and
  -- key by the time of the insert, also after this request's own lookup, this request makes no
  -- library call.
  pub run_operation-key_taken :
      (t : Table) (r : Row)
      → req.key ≢ ""
      → first_where (has_key req.authorization_id account (kind_text kind) req.key) (insert_table t)
        ≡ some r
      → (run_operation rt env kind account req call t).sent ≡ []
  unfolding new_operation
  run_operation-key_taken t r keyed taken = elim (run_operation-SendsOnce t) [
    | inl unsent ↦ unsent
    | inr (fp, row, sent, inserted, found) ↦ absurd (
        insert_operation-taken env.insert_fate env.insert_now ""
          (new_operation env kind account req fp) (insert_table t) r keyed taken inserted)
  ]
