-- ===== src/Live.antt =====
-- crates/mmm-producers/src/live_loop.rs, and the codes of crates/mmm-bitcoin-core/src/availability.rs:
-- the supervisor of a live producer. An anyhow error is the type it is downcast to, times are
-- milliseconds, and the clock, the hash behind the jitter and the producer are arguments.
pub mod Backoff
pub mod Rounds
use merge_mining_monitor.Base.{
  Bool, List, Option, Result, String, [], err, false, if◌then◌else◌, is_none, keep_if, leb, ltb,
  none, not, ok, some, true, ℕ, ◌%◌, ◌&&◌, ◌*◌, ◌+◌, ◌-◌, ◌/◌, ◌^◌, ◌||◌, ◌∷◌,
}

pub data CoreUnavailable : Type 0 where
  transport_down core_timeout core_warmup initial_block_download header_lag stale_tip :
      CoreUnavailable

abbrev pub unavailable_code : CoreUnavailable → String
unavailable_code transport_down = "core_unreachable"
unavailable_code core_timeout = "core_timeout"
unavailable_code core_warmup = "core_warmup"
unavailable_code initial_block_download = "core_initial_block_download"
unavailable_code header_lag = "core_header_lag"
unavailable_code stale_tip = "core_stale_tip"

pub data CoreFault : Type 0 where
  core_wrong_network core_authentication core_invalid_response : CoreFault

abbrev pub fault_code : CoreFault → String
fault_code core_wrong_network = "core_wrong_network"
fault_code core_authentication = "core_authentication"
fault_code core_invalid_response = "core_invalid_response"

pub data BackboneIntegrityError : Type 0 where
  height_conflict link_mismatch live_window_invariant target_tip_changed : BackboneIntegrityError

-- what an error is downcast to
pub data LiveFault : Type 0 where
  core_unavailable : CoreUnavailable → LiveFault
  local_recovery : String → LiveFault
  core_fault : CoreFault → LiveFault
  backbone_integrity : BackboneIntegrityError → LiveFault
  cache_integrity other_fault : LiveFault

pub data CycleState : Type 0 where
  healthy_cycle : CycleState
  pending_cycle : String → CycleState
  waiting_cycle : CoreUnavailable → CycleState

abbrev pub recovery_state : LiveFault → Option CycleState
recovery_state (core_unavailable reason) = some (waiting_cycle reason)
recovery_state (local_recovery reason) = some (pending_cycle reason)
recovery_state _ = none

abbrev pub is_core_fault : LiveFault → Bool
is_core_fault (core_fault fault) = true
is_core_fault _ = false

abbrev pub is_cache_integrity : LiveFault → Bool
is_cache_integrity cache_integrity = true
is_cache_integrity _ = false

abbrev pub is_backbone_integrity_error : LiveFault → Bool
is_backbone_integrity_error (backbone_integrity fault) = true
is_backbone_integrity_error _ = false

unfoldable pub must_propagate : LiveFault → Bool
must_propagate fault =
    not (is_none (recovery_state fault)) || is_core_fault fault || is_cache_integrity fault

-- the states and the phases that are published
pub data RunState : Type 0 where
  run_healthy run_recovering run_waiting run_stopped run_failed : RunState

pub data Phase : Type 0 where
  startup_phase running_phase stopped_phase : Phase

abbrev is_healthy : RunState → Bool
is_healthy run_healthy = true
is_healthy _ = false

pub record RuntimeTransition : Type 0 where
  pub phase : Phase
  pub state : RunState
  pub dependency : Option String
  pub reason_code : Option String
  pub failures : ℕ
  pub next_retry_at : Option ℕ

pub record WaitDecision : Type 0 where
  pub deadline : ℕ
  pub transition : RuntimeTransition

-- an i64 that starts at 0 and only grows or is reset
pub record RetryPolicy : Type 0 where
  pub retry_failures : ℕ

abbrev pub default_policy : RetryPolicy
default_policy = record { retry_failures = 0 }

-- `Instant::now`, the whole seconds of the wall clock after a delay, and the hash of a count
pub record Clock : Type 0 where
  pub now : ℕ
  pub wall_after : ℕ → Option ℕ
  pub hash_one : ℕ → ℕ

-- `saturating_add(1)` of an i64
abbrev pub saturating_suc : ℕ → ℕ
saturating_suc n = if ltb (n + 1) (2 ^ 63) then n + 1 else 2 ^ 63 - 1

abbrev pub min_ℕ : ℕ → ℕ → ℕ
min_ℕ a b = if leb a b then a else b

-- `(5_000 << (failures - 1).min(6)).min(300_000)`
unfoldable pub ceiling_ms : ℕ → ℕ
ceiling_ms failures = min_ℕ (5000 * 2 ^ min_ℕ (failures - 1) 6) 300000

unfoldable pub jittered_ms : Clock → ℕ → ℕ
unfolding ceiling_ms
jittered_ms clock failures =
    let half = ceiling_ms failures / 2 in half + clock.hash_one failures % (half + 1)

-- the end of `decide`, from the tuple that its match gives
unfoldable pub wait_for :
    Clock → Phase → ℕ → RunState → Option String → Option String → ℕ → RetryPolicy × WaitDecision
wait_for clock phase failures state dependency reason delay = (
  record { retry_failures = failures },
  record {
    deadline = clock.now + delay;
    transition = record {
      phase = phase;
      state = state;
      dependency = dependency;
      reason_code = reason;
      failures = failures;
      next_retry_at = keep_if (clock.wall_after delay) (λ _. not (is_healthy state));
    };
  },
)

unfoldable pub decide : Clock → RetryPolicy → CycleState → Phase → ℕ → RetryPolicy × WaitDecision
unfolding wait_for jittered_ms
decide clock policy healthy_cycle phase normal = wait_for clock phase 0 run_healthy none none normal
decide clock policy (pending_cycle reason) phase normal =
    wait_for clock phase policy.retry_failures run_recovering none (some reason) normal
decide clock policy (waiting_cycle reason) phase normal =
    let failures = saturating_suc policy.retry_failures in
    wait_for clock phase failures run_waiting (some "bitcoin-core") (some (unavailable_code reason))
      (jittered_ms clock failures)

pub record TickOutcome : Type 0 where
  pub progressed : Bool
  pub idle_at_target : Bool
  pub completed : Bool

-- the trait; a call returns the changed producer
pub record LiveProducer (P : Type 0) : Type 0 where
  pub normal_interval : P → ℕ
  pub tick : P → Result LiveFault TickOutcome × P
  pub wait_after_tick : P → Result LiveFault TickOutcome → Result LiveFault ℕ × P

unfoldable pub cycle_of : TickOutcome → CycleState
cycle_of outcome =
    if not outcome.completed
    then pending_cycle "capture_pending"
    else if outcome.progressed || outcome.idle_at_target
    then healthy_cycle
    else pending_cycle "producer_no_progress"

module _ {P : Type 0} (producer : LiveProducer P) where
  unfoldable pub paired :
      CycleState → Result LiveFault ℕ × P → Result LiveFault (CycleState × ℕ) × P
  paired state (ok delay, p) = (ok (state, delay), p)
  paired state (err fault, p) = (err fault, p)

  unfoldable pub after_fault :
      LiveFault → Option CycleState → P → Result LiveFault (CycleState × ℕ) × P
  unfolding paired
  after_fault fault (some state) p = (ok (state, producer.normal_interval p), p)
  after_fault fault none p =
      paired (pending_cycle "capture_pending") (producer.wait_after_tick p (err fault))

  -- a round of the loop of `run_ticks`, up to its wait
  unfoldable pub round : Result LiveFault TickOutcome × P → Result LiveFault (CycleState × ℕ) × P
  unfolding after_fault cycle_of
  round (err fault, p) = after_fault fault (recovery_state fault) p
  round (ok outcome, p) = paired (cycle_of outcome) (producer.wait_after_tick p (ok outcome))

  -- the wait of a round, with its published transition, or the fault that ends the loop
  unfoldable pub settle :
      Clock
      → RetryPolicy
      → Result LiveFault (CycleState × ℕ) × P
      → Result LiveFault WaitDecision × RetryPolicy × P
  unfolding decide
  settle clock policy (err fault, p) = (err fault, policy, p)
  settle clock policy (ok (state, delay), p) =
      let (policy', decision) = decide clock policy state running_phase delay in
      (ok decision, policy', p)

  unfoldable pub stop_or :
      Result LiveFault WaitDecision
      → RetryPolicy × P
      → Option LiveFault × RetryPolicy × P
      → Option LiveFault × RetryPolicy × P
  stop_or (err fault) (policy, p) rest = (some fault, policy, p)
  stop_or (ok decision) reached rest = rest

  -- the rounds of `run_ticks`, each at its clock; the loop runs until a fault ends it
  unfoldable pub run_ticks : List Clock → RetryPolicy → P → Option LiveFault × RetryPolicy × P
  unfolding settle round stop_or
  run_ticks [] policy p = (none, policy, p)
  run_ticks (clock ∷ clocks) policy p =
      let (settled, policy', p') = settle clock policy (round (producer.tick p)) in
      let rest = run_ticks clocks policy' p' in stop_or settled (policy', p') rest

-- what a readiness check of `prepare` leads to
pub data Prepared : Type 0 where
  prepared : CycleState → Prepared
  prepare_again : CycleState → Prepared
  prepare_failed : LiveFault → Prepared

unprepared : (LiveFault → Bool) → LiveFault → Option CycleState → Prepared
unprepared retryable fault (some state) = prepare_again state
unprepared retryable fault none =
    if not (must_propagate fault) && retryable fault
    then prepare_again (pending_cycle "capture_pending")
    else prepare_failed fault

-- the match of `prepare`, on the result of `refresh_bitcoin_core_header_cache`
unfoldable pub prepare_step {ℓ} : {A : Type ℓ} → (LiveFault → Bool) → Result LiveFault A → Prepared
unfolding unprepared must_propagate
prepare_step retryable (ok refreshed) = prepared (pending_cycle "startup_pending")
prepare_step retryable (err fault) = unprepared retryable fault (recovery_state fault)

abbrev failed_code : LiveFault → String
failed_code (core_fault fault) = fault_code fault
failed_code _ = "producer_failed"

abbrev pub map_fault : Option LiveFault → Option String
map_fault none = none
map_fault (some fault) = some (failed_code fault)

unfoldable pub finish : RetryPolicy → Option LiveFault → RuntimeTransition
finish policy error = record {
  phase = stopped_phase;
  state = if is_none error then run_stopped else run_failed;
  dependency = none;
  reason_code = map_fault error;
  failures = policy.retry_failures;
  next_retry_at = none;
}
