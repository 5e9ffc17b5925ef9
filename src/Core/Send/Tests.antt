-- ===== src/Core/Send/Tests.antt =====
-- internal/core/send.go: a send that succeeds at its third attempt.
use agent_gm.Prelude.{ℕ, zero, suc, Bool, true}
use agent_gm.Prelude.Int.{pos}
use agent_gm.Core.Send.{SendAttempt, answers, send_retry_backoff, send_with_retry}
use agent_gm.Core.Send.Retrying.{IsSchedule, send_with_retry-IsSchedule}

abbrev attempt : ℕ → SendAttempt
attempt zero = answers (pos 2)
attempt (suc zero) = answers (pos 3)
attempt (suc (suc i)) = answers (pos 1)

abbrev sleeps : ℕ → Bool
sleeps i = true

send_with_retry-IsSchedule_example :
    IsSchedule attempt send_retry_backoff (send_with_retry attempt sleeps)
send_with_retry-IsSchedule_example = send_with_retry-IsSchedule attempt sleeps
