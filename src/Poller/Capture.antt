-- ===== src/Poller/Capture.antt =====
-- crates/mmm-producers/src/poller/mod.rs: the second loop of `run_tick_policy_counting`, as a relation
-- that says which calls it makes and where it stops.
use mathlib.Core.Path.{subst}
use merge_mining_monitor.Base.{
  Option, Result, arith, err, none, ok, refl, some, suc, sym, zero, ℕ, ◌∙◌, ◌≡◌,
}
use merge_mining_monitor.Base.Int.{+ℤ_parts, add_zero_ℤ, pos, shift_suc, ℤ, ◌+ℤ◌, ◌<ℤ◌, ◌≤ℤ◌}
use merge_mining_monitor.Base.Ranges.{heights_from}
use merge_mining_monitor.Live.{LiveFault}
use merge_mining_monitor.Nbits.{max_ℤ}
use merge_mining_monitor.Poller.{
  Ended, HeightProgress, Process, TickState, advance_height, capture_heights, captured, counted,
  hold_height,
}

-- From a cursor and a chain, to the cursor, the chain and the fault that the capture up to `end` leaves.
pub data CaptureRun {S : Type 0} (process : Process S) (end : ℤ)
    : ℤ → S → ℤ → S → Option LiveFault → Type 0 where
  reached_end : {s : S} → CaptureRun process end end s end s none
  stopped_held :
      {c : ℤ} {s t : S}
      → c <ℤ end
      → process s (c +ℤ pos 1) ≡ (ok hold_height, t)
      → CaptureRun process end c s c t none
  stopped_failed :
      {c : ℤ} {s t : S} {fault : LiveFault}
      → c <ℤ end
      → process s (c +ℤ pos 1) ≡ (err fault, t)
      → CaptureRun process end c s c t (some fault)
  captured_next :
      {c d : ℤ} {s t u : S} {result : Option LiveFault}
      → c <ℤ end
      → process s (c +ℤ pos 1) ≡ (ok advance_height, t)
      → CaptureRun process end (c +ℤ pos 1) t d u result
      → CaptureRun process end c s d u result

pub CaptureRun-bounds :
    {S : Type 0} {process : Process S} {end c d : ℤ} {s u : S} {result : Option LiveFault}
    → CaptureRun process end c s d u result
    → (c ≤ℤ d) × (d ≤ℤ end)
CaptureRun-bounds {end = end} reached_end = (omega arith, omega arith)
CaptureRun-bounds {c = c} (stopped_held below e) = (omega arith, omega arith)
CaptureRun-bounds {c = c} (stopped_failed below e) = (omega arith, omega arith)
CaptureRun-bounds {c = c} (captured_next below e run) =
    let (h1, h2) = CaptureRun-bounds run in (omega (arith, +ℤ_parts c (pos 1)), omega arith)

max_ℤ_suc : (c : ℤ) → max_ℤ c (c +ℤ pos 1) ≡ c +ℤ pos 1
max_ℤ_suc c = ground (arith, +ℤ_parts c (pos 1))

below_end : (n : ℕ) (c end : ℤ) → c +ℤ pos (suc n) ≡ end → c <ℤ end
below_end n c end h = rw (← h) (omega (arith, +ℤ_parts c (pos (suc n))))

module _ {S : Type 0} (process : Process S) where
  abbrev Runs : ℤ → TickState S → Ended S → Type 0
  Runs end t (t', result) =
      CaptureRun process end t.tick_cursor t.child t'.tick_cursor t'.child result

  captured-Runs :
      (next : TickState S → Ended S) (end : ℤ) (t : TickState S)
      (outcome : Result LiveFault HeightProgress × S)
      → t.tick_cursor <ℤ end
      → process t.child (t.tick_cursor +ℤ pos 1) ≡ outcome
      → ((t' : TickState S) → t'.tick_cursor ≡ t.tick_cursor +ℤ pos 1 → Runs end t' (next t'))
      → Runs end t (captured next (t.tick_cursor +ℤ pos 1) t outcome)
  unfolding captured
  captured-Runs next end t (ok advance_height, s) below called later =
      let t' : TickState S = record {
        tick_cursor = max_ℤ t.tick_cursor (t.tick_cursor +ℤ pos 1);
        progress = counted t.progress;
        child = s;
      } in
      let (t'', result) = next t' in
      captured_next below called (
        subst (λ c. CaptureRun process end c s t''.tick_cursor t''.child result)
          (max_ℤ_suc t.tick_cursor) (later t' (max_ℤ_suc t.tick_cursor)))
  captured-Runs next end t (ok hold_height, s) below called later = stopped_held below called
  captured-Runs next end t (err fault, s) below called later = stopped_failed below called

  pub capture_heights-Runs :
      (n : ℕ) (end : ℤ) (t : TickState S)
      → t.tick_cursor +ℤ pos n ≡ end
      → Runs end t (capture_heights process (heights_from n (t.tick_cursor +ℤ pos 1)) t)
  unfolding capture_heights heights_from
  capture_heights-Runs zero end t h = rw (sym h ∙ add_zero_ℤ t.tick_cursor) reached_end
  capture_heights-Runs (suc n) end t h =
      captured-Runs (capture_heights process (heights_from n (t.tick_cursor +ℤ pos 1 +ℤ pos 1))) end
        t _ (below_end n t.tick_cursor end h) refl
        (λ t' e.
          subst (λ c. Runs end t' (capture_heights process (heights_from n (c +ℤ pos 1)) t')) e
            (capture_heights-Runs n end t' (rw e (shift_suc n t.tick_cursor end h))))
