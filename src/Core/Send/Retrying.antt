-- ===== src/Core/Send/Retrying.antt =====
-- internal/core/send.go: how often a send is tried, when it waits, and what it returns.
use agent_gm.Prelude.{
  ℕ, zero, suc, ◌≤◌, ◌<◌, ◌≡◌, refl, ap, subst, ◌∙◌, Bool, true, false, not, List, [], ◌∷◌, ◌++◌,
  length, arith, if-both,
}
use agent_gm.Prelude.Int.{ℤ, pos, negsuc, eqz}
use agent_gm.Gm.Errors.{Class, is_transient, send_failure}
use agent_gm.Core.Send.{
  SendAttempt, fails, answers, SendReturn, sent, errored, interrupted, SendRun, send_retry_backoff,
  ended, after_sleep, after_status, after_attempt, status_of, send_from, send_with_retry,
}

abbrev pub IsTransientAnswer : SendAttempt → Type 0
IsTransientAnswer a = (status : ℤ) × (a ≡ answers status) × (is_transient status ≡ true)

-- What the last attempt gives the caller; a transient status only if no sleep is left.
pub data IsEnd (exhausted : Type 0) (a : SendAttempt) (answer : SendReturn) : Type 0 where
  succeeds : a ≡ answers (pos 1) → answer ≡ sent → IsEnd exhausted a answer
  not_retried : (e : Class) → a ≡ fails e → answer ≡ errored e → IsEnd exhausted a answer
  rejected :
      (status : ℤ)
      → a ≡ answers status
      → answer ≡ errored (send_failure status)
      → (is_transient status ≡ true → exhausted)
      → IsEnd exhausted a answer
  cut_short : IsTransientAnswer a → answer ≡ interrupted → IsEnd exhausted a answer

pub record IsSchedule (attempt : ℕ → SendAttempt) (backoff : List ℕ) (r : SendRun) : Type 0 where
  pub tried : 1 ≤ r.attempts
  pub bounded : r.attempts ≤ suc (length backoff)
  pub in_order : (rest : List ℕ) × (r.slept ++ rest ≡ backoff)
  pub one_sleep : (length r.slept ≤ r.attempts) × (r.attempts ≤ suc (length r.slept))
  pub only_transient : (j : ℕ) → suc j < r.attempts → IsTransientAnswer (attempt j)
  pub at_end :
      (j : ℕ) → suc j ≡ r.attempts → IsEnd (r.attempts ≡ suc (length backoff)) (attempt j) r.answer

eqz_eq : (z : ℤ) (n : ℕ) → eqz z (pos n) ≡ true → z ≡ pos n
eqz_eq (pos m) n h = ap pos (ground arith)
eqz_eq (negsuc m) n h = cc

-- A run of one attempt.
ended-IsSchedule :
    (attempt : ℕ → SendAttempt) (backoff : List ℕ) (answer : SendReturn)
    → IsEnd (1 ≡ suc (length backoff)) (attempt 0) answer
    → IsSchedule attempt backoff (ended answer)
ended-IsSchedule attempt backoff answer e = record {
  tried = omega arith;
  bounded = omega arith;
  in_order = (backoff, refl);
  one_sleep = (omega arith, omega arith);
  only_transient = λ j h. absurd (omega arith);
  at_end = λ j h.
      let z : 0 ≡ j = omega arith in
      subst (λ k. IsEnd (1 ≡ suc (length backoff)) (attempt k) answer) z e;
}

-- What an attempt that is not retried leads to, and one that is.
attempt-IsSchedule :
    (attempt : ℕ → SendAttempt) (backoff : List ℕ) (a : SendAttempt) (again : SendRun)
    → attempt 0 ≡ a
    → ((status : ℤ)
        → a ≡ answers status
        → is_transient status ≡ true
        → IsSchedule attempt backoff again)
    → IsSchedule attempt backoff (after_attempt a again)
unfolding after_attempt after_status
attempt-IsSchedule attempt backoff (fails e) again is more =
    ended-IsSchedule attempt backoff (errored e) (not_retried e is refl)
attempt-IsSchedule attempt backoff (answers status) again is more =
    if-both (IsSchedule attempt backoff) (eqz status (pos 1)) _ _
      (λ good.
        ended-IsSchedule attempt backoff sent
          (succeeds (is ∙ ap answers (eqz_eq status 1 good)) refl))
      λ bad.
        if-both (IsSchedule attempt backoff) (not (is_transient status)) _ _
          (λ final.
            ended-IsSchedule attempt backoff (errored (send_failure status))
              (rejected status is refl (λ h. absurd (not_both (is_transient status) final h))))
          λ transient. more status refl (ground (arith, transient))
  where
    not_both : (b : Bool) → not b ≡ true → b ≡ true → ⊥
    not_both b h k = ground (arith, h, k)

IsEnd-later :
    {A B : Type 0} {a : SendAttempt} {answer : SendReturn}
    → (A → B)
    → IsEnd A a answer
    → IsEnd B a answer
IsEnd-later f (succeeds x y) = succeeds x y
IsEnd-later f (not_retried e x y) = not_retried e x y
IsEnd-later f (rejected status x y z) = rejected status x y (λ h. f (z h))
IsEnd-later f (cut_short x y) = cut_short x y

sleep-IsSchedule :
    (attempt : ℕ → SendAttempt) (b : ℕ) (rest : List ℕ) (slept : Bool) (more : SendRun)
    → IsTransientAnswer (attempt 0)
    → IsSchedule (λ i. attempt (suc i)) rest more
    → IsSchedule attempt (b ∷ rest) (after_sleep b slept more)
sleep-IsSchedule attempt b rest false more t v = record {
  tried = omega arith;
  bounded = omega arith;
  in_order = (rest, refl);
  one_sleep = (omega arith, omega arith);
  only_transient = λ j h. absurd (omega arith);
  at_end = λ j h.
      let z : 0 ≡ j = omega arith in
      subst (λ k. IsEnd (1 ≡ suc (length (b ∷ rest))) (attempt k) interrupted) z (cut_short t refl);
}
sleep-IsSchedule attempt b rest true more t v = record {
  tried = omega arith;
  bounded = let k = v.bounded in omega arith;
  in_order = let (left, e) = v.in_order in (left, ap (λ l. b ∷ l) e);
  one_sleep = let (x, y) = v.one_sleep in (omega arith, omega arith);
  only_transient = earlier;
  at_end = last;
}
  where
    earlier : (j : ℕ) → suc j < suc more.attempts → IsTransientAnswer (attempt j)
    earlier zero h = t
    earlier (suc j) h = v.only_transient j (omega arith)

    last :
        (j : ℕ)
        → suc j ≡ suc more.attempts
        → IsEnd (suc more.attempts ≡ suc (length (b ∷ rest))) (attempt j) more.answer
    last zero h = let k = v.tried in absurd (omega arith)
    last (suc j) h = IsEnd-later (λ e. ap suc e) (v.at_end j (omega arith))

send_from-IsSchedule :
    (attempt : ℕ → SendAttempt) (sleeps : ℕ → Bool) (backoff : List ℕ)
    → IsSchedule attempt backoff (send_from attempt sleeps backoff)
unfolding send_from
send_from-IsSchedule attempt sleeps [] =
    attempt-IsSchedule attempt [] (attempt 0) _ refl (λ status is transient.
      ended-IsSchedule attempt [] (errored (send_failure (status_of (attempt 0))))
        (rejected status is (ap (λ a. errored (send_failure (status_of a))) is) (λ _. refl)))
send_from-IsSchedule attempt sleeps (b ∷ rest) =
    attempt-IsSchedule attempt (b ∷ rest) (attempt 0) _ refl (λ status is transient.
      sleep-IsSchedule attempt b rest (sleeps 0) _ (status, is, transient)
        (send_from-IsSchedule (λ i. attempt (suc i)) (λ i. sleeps (suc i)) rest))

-- A send is tried once at least and four times at most, with sleeps of 3, 8 and 20 seconds in that
-- order and one between two attempts: only a transient status is followed by another attempt, an
-- error of the library is returned at once, and a transient status is returned as a failure only
-- when all four attempts have met one. A sleep that is cut short ends it.
pub send_with_retry-IsSchedule :
    (attempt : ℕ → SendAttempt) (sleeps : ℕ → Bool)
    → IsSchedule attempt send_retry_backoff (send_with_retry attempt sleeps)
unfolding send_with_retry
send_with_retry-IsSchedule attempt sleeps = send_from-IsSchedule attempt sleeps send_retry_backoff
