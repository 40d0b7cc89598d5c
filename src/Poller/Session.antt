-- ===== src/Poller/Session.antt =====
-- crates/mmm-producers/src/poller/mod.rs: the ticks of a poller. What the log says of a
-- failed tick is left out, and so is what the clock measures.
use merge_mining_monitor.Base.{
  Bool, Option, Result, err, false, if◌then◌else◌, ltb, none, ok, some, suc, true, zero, ℕ, ◌+◌,
  ◌-◌, ◌||◌,
}
use merge_mining_monitor.Base.Int.{eqb_ℤ, leb_ℤ, pos, pos_part, ℤ}
use merge_mining_monitor.Base.Ranges.{min_ℤ}
use merge_mining_monitor.Base.Steps.{Step, ◌>>=◌, ◌>>◌}
use merge_mining_monitor.Live.{
  LiveFault, LiveProducer, TickOutcome, is_backbone_integrity_error, local_recovery, must_propagate,
}
use merge_mining_monitor.Nbits.{sub_i32}
use merge_mining_monitor.Poller.{
  PollerConfig, Process, TickState, TickWindow, compute_tick_window, effective_start, rescan_floor,
  run_tick_policy_counting,
}

-- the trait `ChainPoller`, and the calls of the store, on the state of the chain and of the store
pub record ChainPoller (S : Type 0) : Type 0 where
  pub activation_floor : ℤ
  pub chain_tip : Step S LiveFault ℤ
  pub process_height : Process S
  pub rescan_height : Process S
  pub refresh_core_cache : Step S LiveFault (Unit {0})
  pub drain_pending : Step S LiveFault (Unit {0})
  pub reconcile_read_model : Step S LiveFault ℕ
  pub is_budget_exhausted : LiveFault → Bool
  pub check_known_stale : Step S LiveFault (Unit {0})
  pub load_poll_cursor : Step S LiveFault (Option ℤ)
  pub upsert_poll_cursor : ℤ → Option ℤ → Step S LiveFault (Unit {0})
  pub prune_chain_heads : ℤ → Step S LiveFault (Unit {0})
  pub sleep_seconds : ℕ → S → S

pub record TickSummary : Type 0 where
  pub tip : Option ℤ
  pub processed : ℕ
  pub rescanned : ℕ
  pub new : ℤ
  pub held : Bool

pub record Poller (S : Type 0) : Type 0 where
  pub child : S
  pub cursor : ℤ
  pub config : PollerConfig

module _ {S : Type 0} (chain : ChainPoller S) where
  open chain use {
    activation_floor, chain_tip, process_height, rescan_height, refresh_core_cache, drain_pending,
    upsert_poll_cursor, prune_chain_heads, sleep_seconds,
  }

  -- the match of an attempt that has others behind it
  unfoldable pub tried :
      ℕ → (S → Result LiveFault ℤ × S) → Result LiveFault ℤ × S → Result LiveFault ℤ × S
  tried attempt again (ok tip, s) = (ok tip, s)
  tried attempt again (err fault, s) = again (sleep_seconds attempt s)

  -- attempt `attempt`, with `more` attempts behind it; only the last does not sleep when it fails
  unfoldable pub try_tip : ℕ → ℕ → Step S LiveFault ℤ
  unfolding tried
  try_tip zero attempt s = chain_tip s
  try_tip (suc more) attempt s = tried attempt (try_tip more (attempt + 1)) (chain_tip s)

  -- `ATTEMPTS` is 5
  unfoldable pub fetch_tip_with_retry : Step S LiveFault ℤ
  unfolding try_tip
  fetch_tip_with_retry s = try_tip 4 1 s

  -- a call whose fault is only logged
  abbrev pub best_effort : Step S LiveFault (Unit {0}) → S → S
  best_effort call s = (call s).1

  drained : Result LiveFault (Unit {0}) → Result LiveFault (Unit {0})
  unfolding must_propagate
  drained (ok done) = ok tt
  drained (err fault) =
      if must_propagate fault then err fault else err (local_recovery "capture_pending")

  unfoldable pub drain_pending_before_capture : Step S LiveFault (Unit {0})
  unfolding drained
  drain_pending_before_capture s = let (result, s') = drain_pending s in (drained result, s')

  unfoldable pub fetch_tip_and_persist_target : ℤ → Step S LiveFault ℤ
  unfolding fetch_tip_with_retry
  fetch_tip_and_persist_target cursor = do
    tip ← fetch_tip_with_retry
    λ s. (ok tip, best_effort (upsert_poll_cursor cursor (some tip)) s)

  -- the cursor moves up only, and a fault of the store is only logged
  unfoldable pub persist_progress_if_advanced : ℤ → ℤ → Poller S → Poller S
  persist_progress_if_advanced reached tip poller =
      if leb_ℤ reached poller.cursor then poller else record poller {
        cursor = reached;
        child = best_effort (upsert_poll_cursor reached (some tip)) poller.child;
      }

  abbrev summary_of : ℤ → ℤ → TickState S → TickSummary
  summary_of old tip t =
      let new = sub_i32 t.tick_cursor old in
      record {
        tip = some tip;
        processed = t.progress.processed;
        rescanned = t.progress.processed - pos_part new;
        new = new;
        held = t.progress.held;
      }

  unless_failed : Option LiveFault → TickSummary → Result LiveFault TickSummary
  unless_failed none summary = ok summary
  unless_failed (some fault) summary = err fault

  unfoldable pub run_window_and_persist_progress :
      TickWindow → ℤ → Step (Poller S) LiveFault TickSummary
  unfolding run_tick_policy_counting persist_progress_if_advanced unless_failed
  run_window_and_persist_progress window tip poller =
      let (t, fault) =
        run_tick_policy_counting rescan_height process_height poller.cursor window poller.child in
      (
        unless_failed fault (summary_of poller.cursor tip t),
        persist_progress_if_advanced t.tick_cursor tip (record poller { child = t.child }),
      )

  abbrev prune_floor : PollerConfig → ℤ → ℤ
  prune_floor config cursor =
      let floor = rescan_floor cursor config.reorg_depth in
      elim (config.start_height_override) [ none ↦ floor | some start ↦ min_ℤ floor start ]

  unfoldable pub prune_chain_heads_best_effort : Poller S → Poller S
  unfolding rescan_floor
  prune_chain_heads_best_effort poller = record poller {
    child = best_effort (prune_chain_heads (prune_floor poller.config poller.cursor)) poller.child;
  }

  unfoldable pub run_maybe_window : ℤ → Option TickWindow → Step (Poller S) LiveFault TickSummary
  unfolding run_window_and_persist_progress
  run_maybe_window tip none poller = (
    ok (record { tip = some tip; processed = 0; rescanned = 0; new = pos 0; held = false }),
    poller,
  )
  run_maybe_window tip (some window) poller = run_window_and_persist_progress window tip poller

  -- the window and what stands behind it, once the tip is known
  unfoldable pub tick_at : ℤ → Step (Poller S) LiveFault TickSummary
  unfolding compute_tick_window effective_start run_maybe_window prune_chain_heads_best_effort
  tick_at tip poller =
      let start = effective_start poller.config.start_height_override activation_floor in
      let window =
        compute_tick_window start poller.cursor tip poller.config.reorg_depth
          poller.config.batch_size in
      let (result, poller') = run_maybe_window tip window poller in
      (result, prune_chain_heads_best_effort poller')

  -- a step of the chain, for a poller
  abbrev pub on_child : {A : Type 0} → Step S LiveFault A → Step (Poller S) LiveFault A
  on_child call poller =
      let (result, s) = call poller.child in (result, record poller { child = s })

  abbrev pub persisted_tip : Step (Poller S) LiveFault ℤ
  persisted_tip poller = on_child (fetch_tip_and_persist_target poller.cursor) poller

  unfoldable pub poll_tick : Step (Poller S) LiveFault TickSummary
  unfolding drain_pending_before_capture fetch_tip_and_persist_target tick_at
  poll_tick = do
    on_child refresh_core_cache
    on_child drain_pending_before_capture
    tip ← persisted_tip
    tick_at tip

  unfoldable pub outcome_of :
      Result LiveFault TickSummary × Poller S → Result LiveFault TickOutcome × Poller S
  outcome_of (err fault, poller) = (err fault, poller)
  outcome_of (ok summary, poller) =
      if summary.held then (err (local_recovery "capture_pending"), poller) else (
        ok (record {
          progressed = ltb 0 summary.processed;
          idle_at_target = elim (summary.tip) [ none ↦ false | some tip ↦ eqb_ℤ tip poller.cursor ];
          completed = true;
        }),
        poller,
      )

  abbrev poller_wait : Poller S → Result LiveFault TickOutcome → Result LiveFault ℕ × Poller S
  poller_wait poller (ok outcome) = (ok poller.config.poll_interval, poller)
  poller_wait poller (err fault) =
      if must_propagate fault || is_backbone_integrity_error fault
      then (err fault, poller)
      else (ok poller.config.poll_interval, poller)

  -- `impl LiveProducer for Poller`
  unfoldable pub live_poller : LiveProducer (Poller S)
  unfolding poll_tick outcome_of must_propagate
  live_poller = record {
    normal_interval = λ poller. poller.config.poll_interval;
    tick = λ poller. outcome_of (poll_tick poller);
    wait_after_tick = poller_wait;
  }
