-- ===== src/Events/EventHandler.antt =====
-- src/events/handlers/base-event.handler.ts, for any `handle`. Logging is left out.
use secondhand_api.Prelude.{
  ℕ, zero, suc, ◌*◌, ◌^◌, ◌≤◌, List, [], ◌∷◌, ◌++◌, ◌≡◌, refl, ap, ◌∙◌, arith, ◌⊎◌, inl, inr,
}
use secondhand_api.Http.{Result, ok, err, Exception, Result-cases}
use secondhand_api.Exec.{Exec}
use secondhand_api.Events.EventTypes.{BaseEvent}
use mathlib.Core.List.{append-nil, append_assoc}

-- The handler's fields and its method `handle`, which changes a state of its own.
pub record Handler (S : Type 0) : Type 0 where
  pub max_retries : ℕ
  pub retry_delay : ℕ
  pub handle : BaseEvent → Exec S (Unit {0})

-- The state, and the pauses between attempts in milliseconds.
pub record Handling (S : Type 0) : Type 0 where
  pub state : S
  pub pauses : List ℕ

module _ {S : Type 0} (h : Handler S) (event : BaseEvent) where
  abbrev retry_or_throw :
      Result (Unit {0}) → (Exception → Exec (Handling S) (Unit {0})) → Exec (Handling S) (Unit {0})
  retry_or_throw (ok x) handler s = (ok x, s)
  retry_or_throw (err e) handler s = handler e s

  -- `execute` with some retries left, after `retry_count` of them.
  unfoldable pub execute_from : ℕ → ℕ → Exec (Handling S) (Unit {0})
  execute_from zero retry_count s =
      let (r, state) = h.handle event s.state in (r, record s { state = state })
  execute_from (suc left) retry_count s =
      let (r, state) = h.handle event s.state in
      retry_or_throw r
        (λ e t.
          execute_from left (suc retry_count)
            (record t { pauses = t.pauses ++ (h.retry_delay * 2 ^ retry_count) ∷ [] }))
        (record s { state = state })

  -- `handleEvent`, and `execute` from the first attempt.
  unfoldable pub handle_event : Exec (Handling S) (Unit {0})
  unfolding execute_from
  handle_event = execute_from h.max_retries 0

  -- The state after a number of attempts that fail, each on what the one before left.
  abbrev pub after_attempts : ℕ → S → S
  after_attempts zero state = state
  after_attempts (suc n) state = after_attempts n (h.handle event state).1

  -- All of the first attempts fail.
  abbrev pub AllFail : ℕ → S → Type 0
  AllFail zero state = Unit
  AllFail (suc n) state =
      ((e : Exception) × ((h.handle event state).0 ≡ err e)) × AllFail n (h.handle event state).1

  -- retryDelay, twice that, four times, …
  abbrev pub backoff : ℕ → ℕ → List ℕ
  backoff zero retry_count = []
  backoff (suc n) retry_count = (h.retry_delay * 2 ^ retry_count) ∷ backoff n (suc retry_count)

  -- The state and the pauses once the first n attempts failed and one more was made.
  abbrev pub attempted : ℕ → ℕ → Handling S → Result (Unit {0}) × Handling S
  attempted n retry_count s =
      let (r, state) = h.handle event (after_attempts n s.state) in
      (r, record { state = state; pauses = s.pauses ++ backoff n retry_count })

  abbrev pub Succeeds : S → Type 0
  Succeeds state = (h.handle event state).0 ≡ ok tt

  execute_from_ends :
      (left retry_count : ℕ) (s : Handling S)
      → (n : ℕ) × (n ≤ left)
        × AllFail n s.state
        × (Succeeds (after_attempts n s.state) ⊎ (n ≡ left))
        × (execute_from left retry_count s ≡ attempted n retry_count s)
  unfolding execute_from
  execute_from_ends zero retry_count s =
      (0, omega arith, tt, inr refl, rw (append-nil s.pauses) refl)
  execute_from_ends (suc left) retry_count s = elim (Result-cases (h.handle event s.state).0) [
    | inl (x, done) ↦
        (0, omega arith, tt, inl done, rw (append-nil s.pauses, done, retry_or_throw) refl)
    | inr (e, fails) ↦
        let (n, few, failing, last, ran) = execute_from_ends left (suc retry_count) (record {
          state = (h.handle event s.state).1;
          pauses = s.pauses ++ (h.retry_delay * 2 ^ retry_count) ∷ [];
        }) in
        (
          suc n,
          omega arith,
          ((e, fails), failing),
          elim last [ inl done ↦ inl done | inr all ↦ inr (ap suc all) ],
          rw (fails, retry_or_throw) (ran ∙ rw (append_assoc s.pauses) refl),
        )
  ]

  -- `handleEvent` ends, after some number of attempts that fail, at most `maxRetries`, and one
  -- more, which succeeds or is the last: what that one returns or throws is the answer. The pause
  -- after the n-th failure is `retryDelay` times 2 to the power n - 1.
  pub handle_event_ends :
      (s : Handling S)
      → (n : ℕ) × (n ≤ h.max_retries)
        × AllFail n s.state
        × (Succeeds (after_attempts n s.state) ⊎ (n ≡ h.max_retries))
        × (handle_event s ≡ attempted n 0 s)
  unfolding handle_event
  handle_event_ends = execute_from_ends h.max_retries 0
