-- ===== src/Poller/Policy.antt =====
-- crates/mmm-producers/src/poller/mod.rs: `run_tick_policy_counting` as a relation: a pass over the
-- replayed heights that never moves the cursor, then the capture of the new ones.
use mathlib.Core.Path.{subst}
use merge_mining_monitor.Base.{
  Bool, Bool-cases, List, Option, Result, [], arith, err, inl, inr, ltb→lt, none, not, ok, refl,
  some, true, ◌∷◌, ◌≡◌,
}
use merge_mining_monitor.Base.Int.{ltb_ℤ, pos, pos_part, ℤ, ◌+ℤ◌, ◌-ℤ◌, ◌<ℤ◌, ◌≤ℤ◌}
use merge_mining_monitor.Base.Ranges.{heights_between, min_ℤ}
use merge_mining_monitor.Base.Words.{IsI32}
use merge_mining_monitor.Live.{LiveFault, must_propagate}
use merge_mining_monitor.Nbits.{add_i32}
use merge_mining_monitor.Poller.{
  Ended, HeightProgress, Process, TickState, TickWindow, advance_height, capture_heights,
  hold_height, new_heights, no_progress, replay_heights, replayed, run_tick_policy_counting,
}
use merge_mining_monitor.Poller.Capture.{CaptureRun, capture_heights-Runs}

abbrev survives : Result LiveFault HeightProgress → Bool
survives (ok outcome) = true
survives (err fault) = not (must_propagate fault)

-- The rescans of a list of heights, each on the chain that the one before left.
pub data RescanRun {S : Type 0} (rescan : Process S)
    : List ℤ → S → S → Option LiveFault → Type 0 where
  rescanned_all : {s : S} → RescanRun rescan [] s s none
  rescanned_next :
      {h : ℤ} {hs : List ℤ} {s t u : S} {outcome : Result LiveFault HeightProgress}
      {result : Option LiveFault}
      → rescan s h ≡ (outcome, t)
      → survives outcome ≡ true
      → RescanRun rescan hs t u result
      → RescanRun rescan (h ∷ hs) s u result
  rescan_stopped :
      {h : ℤ} {hs : List ℤ} {s t : S} {fault : LiveFault}
      → rescan s h ≡ (err fault, t)
      → must_propagate fault ≡ true
      → RescanRun rescan (h ∷ hs) s t (some fault)

module _ {S : Type 0} (rescan : Process S) where
  record Rescans (hs : List ℤ) (t : TickState S) (reached : Ended S) : Type 0 where
    pub same_cursor : reached.0.tick_cursor ≡ t.tick_cursor
    pub rescans : RescanRun rescan hs t.child reached.0.child reached.1

  replayed-Rescans :
      (next : TickState S → Ended S) (h : ℤ) (hs : List ℤ) (t : TickState S)
      (outcome : Result LiveFault HeightProgress × S)
      → rescan t.child h ≡ outcome
      → ((t' : TickState S) → Rescans hs t' (next t'))
      → Rescans (h ∷ hs) t (replayed next t outcome)
  unfolding replayed
  replayed-Rescans next h hs t (ok hold_height, s) called later =
      let r = later _ in
      record { same_cursor = r.same_cursor; rescans = rescanned_next called refl r.rescans }
  replayed-Rescans next h hs t (ok advance_height, s) called later =
      let r = later _ in
      record { same_cursor = r.same_cursor; rescans = rescanned_next called refl r.rescans }
  replayed-Rescans next h hs t (err fault, s) called later =
      elim (Bool-cases (must_propagate fault)) [
        | inl stops ↦
            rw stops (record { same_cursor = refl; rescans = rescan_stopped called stops })
        | inr goes ↦
            let r = later _ in
            rw goes (record {
              same_cursor = r.same_cursor;
              rescans = rescanned_next called (rw goes refl) r.rescans;
            })
      ]

  replay_heights-Rescans :
      (hs : List ℤ) (t : TickState S) → Rescans hs t (replay_heights rescan hs t)
  unfolding replay_heights
  replay_heights-Rescans [] t = record { same_cursor = refl; rescans = rescanned_all }
  replay_heights-Rescans (h ∷ hs) t =
      replayed-Rescans (replay_heights rescan hs) h hs t _ refl (replay_heights-Rescans hs)

add_i32_suc : (c end : ℤ) → IsI32 c → IsI32 end → c <ℤ end → add_i32 c (pos 1) ≡ c +ℤ pos 1
unfolding ◌+ℤ◌
add_i32_suc c end h1 h2 below = ground arith

count_between : (c end : ℤ) → c <ℤ end → c +ℤ pos (pos_part (end +ℤ pos 1 -ℤ (c +ℤ pos 1))) ≡ end
unfolding ◌+ℤ◌ ◌-ℤ◌
count_between c end below = ground arith

-- What a tick may do to a cursor and a chain.
pub data TickRun {S : Type 0} (rescan process : Process S) (cursor : ℤ) (window : TickWindow)
    (s : S) : ℤ → S → Option LiveFault → Type 0 where
  stopped_rescan :
      {t : S} {fault : LiveFault}
      → RescanRun rescan
          (heights_between window.rescan_start (min_ℤ cursor window.window_end))
          s
          t
          (some fault)
      → TickRun rescan process cursor window s cursor t (some fault)
  nothing_new :
      {t : S}
      → RescanRun rescan
          (heights_between window.rescan_start (min_ℤ cursor window.window_end))
          s
          t
          none
      → window.window_end ≤ℤ cursor
      → TickRun rescan process cursor window s cursor t none
  captured_new :
      {d : ℤ} {t u : S} {result : Option LiveFault}
      → RescanRun rescan
          (heights_between window.rescan_start (min_ℤ cursor window.window_end))
          s
          t
          none
      → cursor <ℤ window.window_end
      → CaptureRun process window.window_end cursor t d u result
      → TickRun rescan process cursor window s d u result

module _ {S : Type 0} (rescan process : Process S) (window : TickWindow) (s : S) where
  abbrev Replays : ℤ → Ended S → Type 0
  Replays cursor (t, result) =
      RescanRun rescan (heights_between window.rescan_start (min_ℤ cursor window.window_end)) s
        t.child result

  abbrev Ticks : ℤ → Ended S → Type 0
  Ticks cursor (t, result) = TickRun rescan process cursor window s t.tick_cursor t.child result

  capture-Ticks :
      (t : TickState S)
      → IsI32 t.tick_cursor
      → IsI32 window.window_end
      → t.tick_cursor <ℤ window.window_end
      → Replays t.tick_cursor (t, none)
      → Ticks t.tick_cursor (
          capture_heights process
            (heights_between (add_i32 t.tick_cursor (pos 1)) window.window_end)
            t)
  unfolding heights_between
  capture-Ticks t h1 h2 below run = rw (add_i32_suc t.tick_cursor window.window_end h1 h2 below) (
      captured_new run below (
        capture_heights-Runs process _ window.window_end t
          (count_between t.tick_cursor window.window_end below)))

  new_heights-Ticks :
      (reached : Ended S)
      → IsI32 reached.0.tick_cursor
      → IsI32 window.window_end
      → Replays reached.0.tick_cursor reached
      → Ticks reached.0.tick_cursor (new_heights process window.window_end reached)
  unfolding new_heights
  new_heights-Ticks (t, some fault) h1 h2 run = stopped_rescan run
  new_heights-Ticks (t, none) h1 h2 run =
      elim (Bool-cases (ltb_ℤ t.tick_cursor window.window_end)) [
        | inl below ↦ rw below (capture-Ticks t h1 h2 (ltb→lt _ _ below) run)
        | inr above ↦ rw above (nothing_new run (ground arith))
      ]

  -- A tick replays the heights of its window up to the cursor, in order, each on the chain that the one
  -- before left: only a fault that must propagate stops that, and the cursor stays. Then it captures the
  -- heights above the cursor one after another up to the window's end: it stops at the first that holds
  -- or fails, and the cursor it leaves is the last height of the unbroken run of advances.
  pub run_tick_policy-TickRun :
      (cursor : ℤ)
      → IsI32 cursor
      → IsI32 window.window_end
      → let (t, result) = run_tick_policy_counting rescan process cursor window s in
        TickRun rescan process cursor window s t.tick_cursor t.child result
  unfolding run_tick_policy_counting
  run_tick_policy-TickRun cursor h1 h2 =
      let start : TickState S = record {
        tick_cursor = cursor;
        progress = no_progress;
        child = s;
      } in
      let hs = heights_between window.rescan_start (min_ℤ cursor window.window_end) in
      let reached = replay_heights rescan hs start in
      let (same, run) = ended hs start in
      subst (λ c. Ticks c (new_heights process window.window_end reached)) same
        (new_heights-Ticks reached (rw same h1) h2 (rw same run))
    where
      ended :
          (hs : List ℤ) (t : TickState S)
          → ((replay_heights rescan hs t).0.tick_cursor ≡ t.tick_cursor)
            × RescanRun rescan hs t.child
                (replay_heights rescan hs t).0.child
                (replay_heights rescan hs t).1
      ended hs t = (
        (replay_heights-Rescans rescan hs t).same_cursor,
        (replay_heights-Rescans rescan hs t).rescans,
      )
