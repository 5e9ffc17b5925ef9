-- ===== src/Store/Write.antt =====
-- internal/store/store.go: `Write` hands a function to the single writer goroutine, which runs it in
-- one transaction (`apply`). What the environment does to a call is its fate.
use agent_gm.Prelude.{◌≡◌, refl, String, arith}

pub data Status : Type 0 where
  running succeeded pending failed unknown : Status

pub data StoreError : Type 0 where
  operation_not_found token_not_found authorization_not_found : StoreError
  authorization_code_not_found account_not_found : StoreError
  -- ErrOperationTransition, with the two statuses
  transition_refused : Status → Status → StoreError
  -- a UNIQUE constraint of the table
  constraint_violated : StoreError
  store_closed : StoreError
  -- the caller's context ended, or the database driver failed
  context_ended : StoreError
  driver_failed : String → StoreError

pub data Result {ℓ} (A : Type ℓ) : Type ℓ where
  ok : A → Result A
  err : StoreError → Result A

pub data Fate : Type 0 where
  -- the store is closed, or the context ended before the writer took the job
  refused_closed refused_context : Fate
  -- Begin or Commit fails
  aborted : String → Fate
  -- the context ends while the caller waits: the writer runs the job to its end all the same
  abandoned : Fate
  commits : Fate

module _ {S A : Type 0} where
  -- `apply`: an error of the function rolls its transaction back.
  abbrev applied : S → Result (A × S) → Result A × S
  applied s (ok (a, s')) = (ok a, s')
  applied s (err e) = (err e, s)

  abbrev drop_answer : Result A × S → Result A × S
  drop_answer (r, s) = (err context_ended, s)

  unfoldable pub write : Fate → (S → Result (A × S)) → S → Result A × S
  write refused_closed f s = (err store_closed, s)
  write refused_context f s = (err context_ended, s)
  write (aborted msg) f s = (err (driver_failed msg), s)
  write abandoned f s = drop_answer (applied s (f s))
  write commits f s = applied s (f s)

  applied_keeps {κ} :
      (P : S → Type κ) (s : S) (r : Result (A × S))
      → P s
      → ((a : A) (s' : S) → r ≡ ok (a, s') → P s')
      → P (applied s r).1
  applied_keeps P s (ok (a, s')) h k = k a s' refl
  applied_keeps P s (err e) h k = h

  -- Whatever the fate, what holds of the old state and of the state that the function makes holds
  -- of the state after the call.
  pub write-keeps {κ} :
      (P : S → Type κ) (fate : Fate) (f : S → Result (A × S)) (s : S)
      → P s
      → ((a : A) (s' : S) → f s ≡ ok (a, s') → P s')
      → P (write fate f s).1
  unfolding write
  write-keeps P refused_closed f s h k = h
  write-keeps P refused_context f s h k = h
  write-keeps P (aborted msg) f s h k = h
  write-keeps P abandoned f s h k = applied_keeps P s (f s) h k
  write-keeps P commits f s h k = applied_keeps P s (f s) h k

  -- A success is the function's own, and its transaction was committed.
  pub write-ok :
      (fate : Fate) (f : S → Result (A × S)) (s : S) (a : A)
      → (write fate f s).0 ≡ ok a
      → f s ≡ ok (a, (write fate f s).1)
  unfolding write
  write-ok refused_closed f s a h = cc
  write-ok refused_context f s a h = cc
  write-ok (aborted msg) f s a h = cc
  write-ok abandoned f s a h = ground arith
  write-ok commits f s a h = ground arith
