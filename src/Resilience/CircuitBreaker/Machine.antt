-- ===== src/Resilience/CircuitBreaker/Machine.antt =====
-- The breaker as a machine of three states, each with the data that matters in it, and the four
-- mutable fields of the class seen as that machine.
use tallei_ai.Common.{
  rejected, resolved, Settled, ℕ, ◌+◌, ◌≡◌, Bool, true, false, Option, none, some, arith, ltb,
  if◌then◌else◌,
}
use tallei_ai.Resilience.CircuitBreaker.{
  CircuitBreakerState, closed, open_, half_open, Breaker, admit, settle,
}
use tallei_ai.Resilience.CircuitBreaker.Invariant.{IsValid}

-- `working`: failures in a row. `tripped`: when, and the failures counted. `probing`: successes in
-- a row since the breaker let calls through again, and when it had opened.
pub data Machine : Type 0 where
  working : ℕ → Machine
  tripped : ℕ → ℕ → Machine
  probing : ℕ → ℕ → Machine

abbrev since : Option ℕ → ℕ
since none = 0
since (some t) = t

abbrev view_in {ℓ} : {E : Type ℓ} → CircuitBreakerState → Breaker E → Machine
view_in closed b = working b.failure_count
view_in open_ b = tripped (since b.opened_at_ms) b.failure_count
view_in half_open b = probing (since b.opened_at_ms) b.half_open_success_count

abbrev pub view {ℓ} : {E : Type ℓ} → Breaker E → Machine
view b = view_in b.state b

-- Time passes: a tripped machine probes once the cool-off is over.
abbrev pub elapse : (cool now : ℕ) → Machine → Machine
elapse cool now (tripped t n) = if ltb now (t + cool) then tripped t n else probing t 0
elapse cool now m = m

abbrev pub lets_through : Machine → Bool
lets_through (tripped t n) = false
lets_through m = true

abbrev pub succeed : (probes : ℕ) → Machine → Machine
succeed probes (working n) = working 0
succeed probes (tripped t n) = tripped t n
succeed probes (probing t k) = if ltb (k + 1) probes then probing t (k + 1) else working 0

-- A failure that arrives while tripped, from a call let through before, counts too, and starts the
-- cool-off again once there are enough.
abbrev pub fail : (threshold now : ℕ) → Machine → Machine
fail threshold now (working n) =
    if ltb (n + 1) threshold then working (n + 1) else tripped now (n + 1)
fail threshold now (tripped t n) =
    if ltb (n + 1) threshold then tripped t (n + 1) else tripped now (n + 1)
fail threshold now (probing t k) = tripped now 0

module _ {ℓ} {E : Type ℓ} (b : Breaker E) where
  abbrev pub settle_view {κ} : {A : Type κ} → ℕ → Settled E A → Machine
  settle_view now (resolved a) = succeed b.half_open_success_threshold (view b)
  settle_view now (rejected e) =
      if b.should_count_failure e then fail b.failure_threshold now (view b) else view b

  -- Admission, on a valid breaker, is what the machine does: time passes, and the operation is let
  -- through exactly if the machine is then not tripped.
  pub admit-Machine :
      (now : ℕ)
      → IsValid b
      → (view (admit now b).0 ≡ elapse b.cool_off_ms now (view b))
        × ((admit now b).1 ≡ lets_through (elapse b.cool_off_ms now (view b)))
  unfolding admit
  admit-Machine now h = ground arith

  -- Accounting for a settled call, on a valid breaker, is what the machine does: a success, a
  -- failure that counts, or nothing for a failure that does not count.
  pub settle-Machine {κ} :
      {A : Type κ} (now : ℕ) (r : Settled E A)
      → IsValid b
      → view (settle now r b) ≡ settle_view now r
  unfolding settle
  settle-Machine now (resolved a) h = ground arith
  settle-Machine now (rejected e) h = ground arith
