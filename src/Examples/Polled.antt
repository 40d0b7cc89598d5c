-- ===== src/Examples/Polled.antt =====
-- A supervised poller of a chain that logs what it captures, and the waits of a node that is down.
use mathlib.Core.Path.{subst}
use merge_mining_monitor.Base.{
  Bool, Bool-cases, List, Result, [], ap, arith, err, false, if◌then◌else◌, inl, inr, none, ok,
  refl, some, true, ℕ, ◌||◌, ◌↔◌, ◌∷◌, ◌≡◌,
}
use merge_mining_monitor.Base.Int.{eqb_ℤ, leb_ℤ, pos, ℤ, ◌+ℤ◌, ◌-ℤ◌, ◌<ℤ◌, ◌≤ℤ◌}
use merge_mining_monitor.Base.Steps.{after}
use merge_mining_monitor.Base.Words.{IsI32}
use merge_mining_monitor.Live.{
  Clock, CycleState, LiveFault, Phase, TickOutcome, core_fault, core_timeout, core_warmup,
  core_wrong_network, decide, default_policy, other_fault, pending_cycle, round, run_ticks,
  running_phase, waiting_cycle,
}
use merge_mining_monitor.Live.Backoff.{
  History, IsOutageWait, decide-IsOutageWait, failures-outages, outages, policy_after,
}
use merge_mining_monitor.Live.Rounds.{is_fatal}
use merge_mining_monitor.Poller.{
  Ended, TickWindow, advance_height, compute_tick_window, hold_height, run_tick_policy_counting,
}
use merge_mining_monitor.Poller.Covered.{Durable}
use merge_mining_monitor.Poller.Invariant.{IsCovered}
use merge_mining_monitor.Poller.Policy.{TickRun, run_tick_policy-TickRun}
use merge_mining_monitor.Poller.Retry.{Attempts, fetch_tip_with_retry-Attempts}
use merge_mining_monitor.Poller.Session.{
  ChainPoller, Poller, drain_pending_before_capture, fetch_tip_and_persist_target,
  fetch_tip_with_retry, live_poller, poll_tick, tick_at,
}
use merge_mining_monitor.Poller.Supervised.{live_poller_stops, run_ticks-IsCovered}
use merge_mining_monitor.Poller.Window.{
  IsTick, IsWindow, compute_tick_window-IsWindow, compute_tick_window_progress,
}

abbrev holds_height : ℤ → List ℤ → Bool
holds_height h [] = false
holds_height h (k ∷ ks) = eqb_ℤ k h || holds_height h ks

-- The chain captures heights up to 5, and its tip is at 7; its store is the log.
abbrev logging_chain : ChainPoller (List ℤ)
logging_chain = record {
  activation_floor = pos 1;
  chain_tip = λ s. (ok (pos 7), s);
  process_height =
      λ s h. if leb_ℤ h (pos 5) then (ok advance_height, h ∷ s) else (ok hold_height, s);
  rescan_height = λ s h. (err other_fault, s);
  refresh_core_cache = λ s. (ok tt, s);
  drain_pending = λ s. (ok tt, s);
  reconcile_read_model = λ s. (ok 0, s);
  is_budget_exhausted = λ fault. false;
  check_known_stale = λ s. (ok tt, s);
  load_poll_cursor = λ s. (ok none, s);
  upsert_poll_cursor = λ c target s. (ok tt, s);
  prune_chain_heads = λ floor s. (ok tt, s);
  sleep_seconds = λ n s. s;
}

abbrev Logged : ℤ → List ℤ → Type 0
Logged h log = holds_height h log ≡ true

logged_first : (h : ℤ) (log : List ℤ) → Logged h (h ∷ log)
logged_first h log = ground arith

logged_more : (k h : ℤ) (log : List ℤ) → Logged k log → Logged k (h ∷ log)
logged_more k h log e = elim (Bool-cases (eqb_ℤ h k)) [
  | inl same ↦ rw same refl
  | inr other ↦ rw other e
]

log_advances :
    (h : ℤ) (s t : List ℤ) → logging_chain.process_height s h ≡ (ok advance_height, t) → Logged h t
log_advances h s t e = elim (Bool-cases (leb_ℤ h (pos 5))) [
  | inl low ↦
      let e' = rw low at e in
      let same : h ∷ s ≡ t = ap (λ r. r.1) e' in rw (← same) (logged_first h s)
  | inr high ↦ let e' = rw high at e in cc
]

log_keeps : (k h : ℤ) (s : List ℤ) → Logged k s → Logged k (logging_chain.process_height s h).1
log_keeps k h s e = elim (Bool-cases (leb_ℤ h (pos 5))) [
  | inl low ↦ rw low (logged_more k h s e)
  | inr high ↦ rw high e
]

tip_seven : (s : List ℤ) (tip : ℤ) → (logging_chain.chain_tip s).0 ≡ ok tip → IsI32 tip
tip_seven s tip e = let same : pos 7 ≡ tip = cc in subst IsI32 same (omega arith)

abbrev log_durable : Durable logging_chain Logged
log_durable = record {
  advances = log_advances;
  process_keeps = log_keeps;
  rescan_keeps = λ k h s e. e;
  refresh_keeps = λ k s e. e;
  drain_keeps = λ k s e. e;
  tip_keeps = λ k s e. e;
  sleep_keeps = λ k n s e. e;
  tip_IsI32 = tip_seven;
  upsert_keeps = λ k c target s e. e;
  prune_keeps = λ k floor s e. e;
}

abbrev polled : Poller (List ℤ)
polled = record {
  child = pos 2 ∷ [];
  cursor = pos 2;
  config = record {
    start_height_override = none;
    poll_interval = 1000;
    batch_size = pos 10;
    reorg_depth = pos 2;
  };
}

only_two : (h : ℤ) → pos 2 ≤ℤ h → h ≤ℤ pos 2 → Logged h (pos 2 ∷ [])
only_two h low high = ground arith

abbrev noon : Clock
noon = record { now = 0; wall_after = λ delay. some delay; hash_one = λ n. 700 }

-- a tick logs 3, 4 and 5, and holds at 6
polled_log :
    (run_ticks (live_poller logging_chain) (noon ∷ []) default_policy polled).2.child
    ≡ pos 5 ∷ pos 4 ∷ pos 3 ∷ pos 2 ∷ []
unfolding run_ticks live_poller poll_tick drain_pending_before_capture fetch_tip_and_persist_target
    fetch_tip_with_retry tick_at compute_tick_window after ◌+ℤ◌ ◌-ℤ◌
polled_log = refl

run_ticks-IsCovered_example :
    IsCovered logging_chain Logged log_durable
      (pos 2)
      (run_ticks (live_poller logging_chain) (noon ∷ noon ∷ []) default_policy polled).2
run_ticks-IsCovered_example =
    run_ticks-IsCovered logging_chain Logged log_durable (pos 2) (noon ∷ noon ∷ []) default_policy
      polled (omega arith, only_two)

abbrev window_to_7 : TickWindow
window_to_7 = record { rescan_start = pos 1; window_end = pos 7 }

abbrev ended_tick : Ended (List ℤ)
ended_tick = (
  record {
    tick_cursor = pos 5;
    progress = record { processed = 3; held = true };
    child = pos 5 ∷ pos 4 ∷ pos 3 ∷ [];
  },
  none,
)

ended_tick_runs :
    run_tick_policy_counting logging_chain.rescan_height logging_chain.process_height
      (pos 2)
      window_to_7
      []
    ≡ ended_tick
unfolding run_tick_policy_counting ◌-ℤ◌ ◌+ℤ◌
ended_tick_runs = refl

run_tick_policy-TickRun_example :
    TickRun logging_chain.rescan_height logging_chain.process_height
      (pos 2)
      window_to_7
      []
      (pos 5)
      (pos 5 ∷ pos 4 ∷ pos 3 ∷ [])
      none
run_tick_policy-TickRun_example =
    subst
      (λ (r : Ended (List ℤ)).
        TickRun logging_chain.rescan_height logging_chain.process_height (pos 2) window_to_7 []
          r.0.tick_cursor r.0.child r.1)
      ended_tick_runs
      (run_tick_policy-TickRun logging_chain.rescan_height logging_chain.process_height window_to_7
        [] (pos 2) (omega arith) (omega arith))

fetch_tip_with_retry-Attempts_example :
    Attempts logging_chain 4 1 [] (fetch_tip_with_retry logging_chain [])
fetch_tip_with_retry-Attempts_example = fetch_tip_with_retry-Attempts logging_chain []

abbrev ready_tick : IsTick (pos 1) (pos 2) (pos 7) (pos 2) (pos 10)
ready_tick = record {
  start_IsI32 = omega arith;
  cursor_IsI32 = omega arith;
  tip_IsI32 = omega arith;
  depth_le = omega arith;
  batch_lt = omega arith;
  seeded = unfold ◌+ℤ◌ in (omega arith);
  cursor_lt = omega arith;
}

compute_tick_window-IsWindow_example : IsWindow (pos 1) (pos 2) (pos 7) (pos 10) window_to_7
compute_tick_window-IsWindow_example =
    compute_tick_window-IsWindow (pos 1) (pos 2) (pos 7) (pos 2) (pos 10) ready_tick window_to_7
      (unfold compute_tick_window ◌+ℤ◌ ◌-ℤ◌ in refl)

compute_tick_window_progress_example :
    (w : TickWindow) × (compute_tick_window (pos 1) (pos 2) (pos 7) (pos 2) (pos 10) ≡ some w)
    × (pos 2 <ℤ w.window_end)
compute_tick_window_progress_example =
    compute_tick_window_progress (pos 1) (pos 2) (pos 7) (pos 2) (pos 10) ready_tick (omega arith)

live_poller_stops_example :
    ((round (live_poller logging_chain) (err other_fault, polled)).0
      ≡ err (core_fault core_wrong_network))
    ↔ ((◌≡◌ {A = Result LiveFault TickOutcome}
          (err other_fault)
          (err (core_fault core_wrong_network)))
        × (is_fatal (core_fault core_wrong_network) ≡ true))
live_poller_stops_example =
    live_poller_stops logging_chain (err other_fault, polled) (core_fault core_wrong_network)

abbrev outage : Clock × CycleState × Phase × ℕ
outage = (noon, waiting_cycle core_timeout, running_phase, 1000)

abbrev two_outages : History
two_outages = outage ∷ (noon, pending_cycle "capture_pending", running_phase, 1000) ∷ outage ∷ []

failures-outages_example : (policy_after two_outages).retry_failures ≡ 2
failures-outages_example = unfold outages in (failures-outages two_outages)

decide-IsOutageWait_example :
    IsOutageWait noon 2
      (decide noon (policy_after two_outages) (waiting_cycle core_warmup) running_phase 1000).1
decide-IsOutageWait_example =
    unfold outages in
    (decide-IsOutageWait two_outages noon core_warmup running_phase 1000 (omega arith))
