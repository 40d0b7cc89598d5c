-- ===== src/Poller/Invariant.antt =====
-- crates/mmm-producers/src/poller/mod.rs: a poll tick keeps every height below the cursor captured.
use mathlib.Core.Path.{subst}
use merge_mining_monitor.Auxpow.Reader.{new}
use merge_mining_monitor.Base.{
  Bool-cases, Option, Result, arith, err, inl, inr, none, ok, refl, some, suc, zero, ℕ, ◌+◌, ◌≡◌,
}
use merge_mining_monitor.Base.Int.{eq_of_parts, leb_ℤ, negsuc, pos, ℤ, ◌≤ℤ◌}
use merge_mining_monitor.Base.Steps.{Step, after-Keeps, after-eq-ok}
use merge_mining_monitor.Base.Words.{IsI32}
use merge_mining_monitor.Live.{LiveFault}
use merge_mining_monitor.Poller.{
  Process, TickWindow, compute_tick_window, effective_start, run_tick_policy_counting,
}
use merge_mining_monitor.Poller.Capture.{CaptureRun-bounds}
use merge_mining_monitor.Poller.Covered.{Covers, Durable, tick-Covers}
use merge_mining_monitor.Poller.Policy.{
  TickRun, captured_new, nothing_new, run_tick_policy-TickRun, stopped_rescan,
}
use merge_mining_monitor.Poller.Retry.{try_tip-Attempts}
use merge_mining_monitor.Poller.Session.{
  ChainPoller, Poller, drain_pending_before_capture, fetch_tip_and_persist_target,
  fetch_tip_with_retry, on_child, persist_progress_if_advanced, persisted_tip, poll_tick,
  prune_chain_heads_best_effort, run_maybe_window, run_window_and_persist_progress, tick_at, tried,
  try_tip,
}
use merge_mining_monitor.Poller.Window.{compute_tick_window-IsI32}

between_IsI32 : (c d e : ℤ) → IsI32 c → IsI32 e → c ≤ℤ d → d ≤ℤ e → IsI32 d
between_IsI32 (pos m) (pos n) (pos k) h1 h2 h3 h4 = omega arith
between_IsI32 (pos m) (pos n) (negsuc k) h1 h2 h3 h4 = absurd (omega arith)
between_IsI32 (pos m) (negsuc n) e h1 h2 h3 h4 = absurd (omega arith)
between_IsI32 (negsuc m) (pos n) (pos k) h1 h2 h3 h4 = omega arith
between_IsI32 (negsuc m) (pos n) (negsuc k) h1 h2 h3 h4 = absurd (omega arith)
between_IsI32 (negsuc m) (negsuc n) e h1 h2 h3 h4 = omega arith

-- A tick leaves the cursor or moves it up, by heights of its window.
pub TickRun-cursor :
    {S : Type 0} {rescan process : Process S} {cursor d : ℤ} {window : TickWindow} {s u : S}
    {result : Option LiveFault}
    → IsI32 cursor
    → IsI32 window.window_end
    → TickRun rescan process cursor window s d u result
    → (cursor ≤ℤ d) × IsI32 d
TickRun-cursor h1 h2 (stopped_rescan run) = (omega arith, h1)
TickRun-cursor h1 h2 (nothing_new run above) = (omega arith, h1)
TickRun-cursor {cursor = c} {d = d} {window = window} h1 h2 (captured_new run below new) =
    let (low, high) = CaptureRun-bounds new in
    (low, between_IsI32 c d window.window_end h1 h2 low high)

module _ {S : Type 0} (chain : ChainPoller S) (Captured : ℤ → S → Type 0)
    (durable : Durable chain Captured) (first : ℤ) where
  -- the cursor is an i32, and every height from `first` up to it is captured
  abbrev pub IsCovered : Poller S → Type 0
  IsCovered poller = IsI32 poller.cursor × Covers Captured first poller.cursor poller.child

  on_child-IsCovered :
      {A : Type 0} (call : Step S LiveFault A) (poller : Poller S)
      → ((h : ℤ) (s : S) → Captured h s → Captured h (call s).1)
      → IsCovered poller
      → IsCovered (on_child chain call poller).1
  on_child-IsCovered call poller keeps (h, all) =
      (h, λ k low high. keeps k poller.child (all k low high))

  persist-IsCovered :
      (d tip : ℤ) (poller : Poller S)
      → poller.cursor ≤ℤ d
      → IsI32 d
      → Covers Captured first d poller.child
      → IsCovered (persist_progress_if_advanced chain d tip poller)
  unfolding persist_progress_if_advanced
  persist-IsCovered d tip poller up h all = elim (Bool-cases (leb_ℤ d poller.cursor)) [
    | inl same ↦
        let e : d ≡ poller.cursor = eq_of_parts d poller.cursor (ground arith) in
        rw same (subst (λ c. IsI32 c × Covers Captured first c poller.child) e (h, all))
    | inr above ↦
        rw above
          (h, λ k low high. durable.upsert_keeps k d (some tip) poller.child (all k low high))
  ]

  summary-IsCovered :
      (window : TickWindow) (tip : ℤ) (poller : Poller S)
      → IsI32 window.window_end
      → IsCovered poller
      → IsCovered (run_window_and_persist_progress chain window tip poller).1
  unfolding run_window_and_persist_progress
  summary-IsCovered window tip poller ends (h, all) =
      let (t, fault) =
        run_tick_policy_counting chain.rescan_height chain.process_height poller.cursor window
          poller.child in
      let run =
        run_tick_policy-TickRun chain.rescan_height chain.process_height window poller.child
          poller.cursor h ends in
      let (up, reached) = TickRun-cursor h ends run in
      persist-IsCovered t.tick_cursor tip (record poller { child = t.child }) up reached
        (tick-Covers chain Captured durable first run all)

  window-IsCovered :
      (tip : ℤ) (found : Option TickWindow) (poller : Poller S)
      → ((w : TickWindow) → found ≡ some w → IsI32 w.window_end)
      → IsCovered poller
      → IsCovered (run_maybe_window chain tip found poller).1
  unfolding run_maybe_window
  window-IsCovered tip none poller ends h = h
  window-IsCovered tip (some window) poller ends h =
      summary-IsCovered window tip poller (ends window refl) h

  tick_at-IsCovered :
      (tip : ℤ) (poller : Poller S)
      → IsI32 tip
      → IsCovered poller
      → IsCovered (tick_at chain tip poller).1
  unfolding tick_at prune_chain_heads_best_effort
  tick_at-IsCovered tip poller t h =
      let start = effective_start poller.config.start_height_override chain.activation_floor in
      let found =
        compute_tick_window start poller.cursor tip poller.config.reorg_depth
          poller.config.batch_size in
      let (h', all) =
        window-IsCovered tip found poller
          (λ w e.
            compute_tick_window-IsI32 start poller.cursor tip poller.config.reorg_depth
              poller.config.batch_size w t e)
          h in
      (h', λ k low high. durable.prune_keeps k _ _ (all k low high))

  tried-Captured :
      (k : ℤ) (attempt : ℕ) (again : Step S LiveFault ℤ) (r : Result LiveFault ℤ × S)
      → ((t : S) → Captured k t → Captured k (again t).1)
      → Captured k r.1
      → Captured k (tried chain attempt again r).1
  unfolding tried
  tried-Captured k attempt again (ok tip, t) later c = c
  tried-Captured k attempt again (err fault, t) later c =
      later (chain.sleep_seconds attempt t) (durable.sleep_keeps k attempt t c)

  try_tip-Captured :
      (k : ℤ) (more attempt : ℕ) (s : S)
      → Captured k s
      → Captured k (try_tip chain more attempt s).1
  unfolding try_tip
  try_tip-Captured k zero attempt s c = durable.tip_keeps k s c
  try_tip-Captured k (suc more) attempt s c =
      tried-Captured k attempt (try_tip chain more (attempt + 1)) (chain.chain_tip s)
        (try_tip-Captured k more (attempt + 1)) (durable.tip_keeps k s c)

  persisted_tip-Captured :
      (k cursor : ℤ) (s : S)
      → Captured k s
      → Captured k (fetch_tip_and_persist_target chain cursor s).1
  unfolding fetch_tip_and_persist_target fetch_tip_with_retry
  persisted_tip-Captured k cursor s c =
      after-Keeps (Captured k) (try_tip chain 4 1 s) _ (try_tip-Captured k 4 1 s c)
        (λ tip e c'. durable.upsert_keeps k cursor (some tip) _ c')

  persisted_tip-IsI32 :
      (cursor : ℤ) (s : S) (tip : ℤ)
      → (fetch_tip_and_persist_target chain cursor s).0 ≡ ok tip
      → IsI32 tip
  unfolding fetch_tip_and_persist_target fetch_tip_with_retry
  persisted_tip-IsI32 cursor s tip e =
      let (asked, first, given) = after-eq-ok (try_tip chain 4 1 s) _ e in
      let attempts = try_tip-Attempts chain 4 1 s in
      let same : asked ≡ tip = cc in
      let called : (chain.chain_tip attempts.last_state).0 ≡ ok tip =
        rw (attempts.last_call, ← same) first in
      durable.tip_IsI32 attempts.last_state tip called

  -- A poll tick, whichever of its calls fails, leaves every height below its cursor captured: the cursor
  -- moves only over heights whose capture advanced.
  pub poll_tick-IsCovered :
      (poller : Poller S) → IsCovered poller → IsCovered (poll_tick chain poller).1
  unfolding poll_tick drain_pending_before_capture
  poll_tick-IsCovered poller h =
      let refreshed = on_child chain chain.refresh_core_cache poller in
      let emptied = on_child chain (drain_pending_before_capture chain) refreshed.1 in
      let known = persisted_tip chain emptied.1 in
      after-Keeps IsCovered refreshed _
        (on_child-IsCovered chain.refresh_core_cache poller durable.refresh_keeps h)
        (λ _ _ h1.
          after-Keeps IsCovered emptied _
            (on_child-IsCovered (drain_pending_before_capture chain) refreshed.1 durable.drain_keeps
              h1)
            (λ _ _ h2.
              after-Keeps IsCovered known _
                (on_child-IsCovered (fetch_tip_and_persist_target chain emptied.1.cursor) emptied.1
                  (λ k. persisted_tip-Captured k emptied.1.cursor) h2)
                (λ tip e h3.
                  tick_at-IsCovered tip known.1
                    (persisted_tip-IsI32 emptied.1.cursor emptied.1.child tip e) h3)))
