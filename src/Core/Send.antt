-- ===== src/Core/Send.antt =====
-- internal/core/send.go: SendWithRetry and ClassifyResolve. Attempt i and the sleep after it answer as the
-- environment says; sleeps are milliseconds.
pub mod Retrying
mod Tests
use agent_gm.Prelude.{
  ℕ, suc, ◌+◌, Bool, true, false, not, Option, none, some, String, List, [], ◌∷◌, if◌then◌else◌,
}
use agent_gm.Prelude.Int.{ℤ, pos, eqz}
use agent_gm.Gm.Errors.{
  Class, is_transient, send_failure, resolve_create_rcs_twice, undocumented_resolve_status,
  with_config_version_context,
}

pub data SendAttempt : Type 0 where
  -- an error of the library, already classified
  fails : Class → SendAttempt
  -- the status of the answer
  answers : ℤ → SendAttempt

pub data SendReturn : Type 0 where
  sent : SendReturn
  errored : Class → SendReturn
  -- the sleep was cut short
  interrupted : SendReturn

pub record SendRun : Type 0 where
  pub answer : SendReturn
  pub attempts : ℕ
  pub slept : List ℕ

abbrev pub send_retry_backoff : List ℕ
send_retry_backoff = 3000 ∷ 8000 ∷ 20000 ∷ []

abbrev pub ended : SendReturn → SendRun
ended answer = record { answer = answer; attempts = 1; slept = [] }

abbrev pub after_sleep : ℕ → Bool → SendRun → SendRun
after_sleep b false rest = record { answer = interrupted; attempts = 1; slept = b ∷ [] }
after_sleep b true rest = record rest { attempts = suc rest.attempts; slept = b ∷ rest.slept }

unfoldable pub after_status : ℤ → SendRun → SendRun
unfolding is_transient send_failure
after_status status again =
    if eqz status (pos 1)
    then ended sent
    else if not (is_transient status)
    then ended (errored (send_failure status))
    else again

-- What one attempt leads to, with what follows a transient status.
unfoldable pub after_attempt : SendAttempt → SendRun → SendRun
unfolding after_status
after_attempt (fails e) again = ended (errored e)
after_attempt (answers status) again = after_status status again

abbrev pub status_of : SendAttempt → ℤ
status_of (fails e) = pos 0
status_of (answers status) = status

-- The loop, over the attempts and the sleeps to come.
unfoldable pub send_from : (ℕ → SendAttempt) → (ℕ → Bool) → List ℕ → SendRun
unfolding after_attempt send_failure
send_from attempt sleeps [] =
    after_attempt (attempt 0) (ended (errored (send_failure (status_of (attempt 0)))))
send_from attempt sleeps (b ∷ rest) =
    let more = send_from (λ i. attempt (suc i)) (λ i. sleeps (suc i)) rest in
    after_attempt (attempt 0) (after_sleep b (sleeps 0) more)

unfoldable pub send_with_retry : (ℕ → SendAttempt) → (ℕ → Bool) → SendRun
unfolding send_from
send_with_retry attempt sleeps = send_from attempt sleeps send_retry_backoff

pub data Resolved (A : Type 0) : Type 0 where
  conversation : A → Resolved A
  no_conversation : Resolved A
  refused_as : Class → Resolved A

unfoldable pub versioned : Bool → Class → String → String → Class
unfolding with_config_version_context
versioned same e compiled live = if same then e else with_config_version_context e compiled live

-- ClassifyResolve, with SameDate of the two versions and their texts.
unfoldable pub classify_resolve : {A : Type 0} → ℤ → Option A → Bool → String → String → Resolved A
unfolding versioned resolve_create_rcs_twice undocumented_resolve_status
classify_resolve status found same compiled live =
    if eqz status (pos 1)
    then elim found [ some c ↦ conversation c | none ↦ no_conversation ]
    else refused_as (
        versioned same
          (if eqz status (pos 3)
            then resolve_create_rcs_twice
            else undocumented_resolve_status status)
          compiled live)
