-- ===== src/Poller/Covered.antt =====
-- crates/mmm-producers/src/poller/mod.rs: no height below the cursor is skipped. A predicate says of a
-- height what its capture leaves in the store.
use mathlib.Core.Path.{subst}
use merge_mining_monitor.Auxpow.Reader.{new}
use merge_mining_monitor.Base.{Bool-cases, List, Option, arith, false, inl, inr, leb→le, ok, ℕ, ◌≡◌}
use merge_mining_monitor.Base.Int.{+ℤ_parts, eq_of_parts, leb_ℤ, pos, ℤ, ◌+ℤ◌, ◌≤ℤ◌}
use merge_mining_monitor.Base.Words.{IsI32}
use merge_mining_monitor.Live.{LiveFault}
use merge_mining_monitor.Poller.{TickWindow, advance_height}
use merge_mining_monitor.Poller.Capture.{
  CaptureRun, captured_next, reached_end, stopped_failed, stopped_held,
}
use merge_mining_monitor.Poller.Policy.{
  RescanRun, TickRun, captured_new, nothing_new, rescan_stopped, rescanned_all, rescanned_next,
  stopped_rescan,
}
use merge_mining_monitor.Poller.Session.{ChainPoller}

last_height : (c h : ℤ) → h ≤ℤ c +ℤ pos 1 → leb_ℤ h c ≡ false → c +ℤ pos 1 ≡ h
last_height c h high young = eq_of_parts (c +ℤ pos 1) h (ground (arith, +ℤ_parts c (pos 1)))

-- The capture of a height that advances leaves its mark, no call of the chain takes a mark away, and
-- the tip of the chain is an i32.
pub record Durable {S : Type 0} (chain : ChainPoller S) (Captured : ℤ → S → Type 0) : Type 0 where
  pub advances :
      (h : ℤ) (s t : S) → chain.process_height s h ≡ (ok advance_height, t) → Captured h t
  pub process_keeps : (k h : ℤ) (s : S) → Captured k s → Captured k (chain.process_height s h).1
  pub rescan_keeps : (k h : ℤ) (s : S) → Captured k s → Captured k (chain.rescan_height s h).1
  pub refresh_keeps : (k : ℤ) (s : S) → Captured k s → Captured k (chain.refresh_core_cache s).1
  pub drain_keeps : (k : ℤ) (s : S) → Captured k s → Captured k (chain.drain_pending s).1
  pub tip_keeps : (k : ℤ) (s : S) → Captured k s → Captured k (chain.chain_tip s).1
  pub sleep_keeps : (k : ℤ) (n : ℕ) (s : S) → Captured k s → Captured k (chain.sleep_seconds n s)
  pub tip_IsI32 : (s : S) (tip : ℤ) → (chain.chain_tip s).0 ≡ ok tip → IsI32 tip
  pub upsert_keeps :
      (k c : ℤ) (target : Option ℤ) (s : S)
      → Captured k s
      → Captured k (chain.upsert_poll_cursor c target s).1
  pub prune_keeps :
      (k floor : ℤ) (s : S) → Captured k s → Captured k (chain.prune_chain_heads floor s).1

-- every height from `first` up to a cursor is captured
abbrev pub Covers : {S : Type 0} → (ℤ → S → Type 0) → ℤ → ℤ → S → Type 0
Covers Captured first cursor s = (h : ℤ) → first ≤ℤ h → h ≤ℤ cursor → Captured h s

module _ {S : Type 0} (chain : ChainPoller S) (Captured : ℤ → S → Type 0)
    (durable : Durable chain Captured) (first : ℤ) where
  capture-Covers :
      {end c d : ℤ} {s u : S} {result : Option LiveFault}
      → CaptureRun chain.process_height end c s d u result
      → Covers Captured first c s
      → Covers Captured first d u
  capture-Covers reached_end all = all
  capture-Covers {c = c} {s = s} (stopped_held below e) all = λ h low high.
      subst (λ r. Captured h r.1) e (durable.process_keeps h (c +ℤ pos 1) s (all h low high))
  capture-Covers {c = c} {s = s} (stopped_failed below e) all = λ h low high.
      subst (λ r. Captured h r.1) e (durable.process_keeps h (c +ℤ pos 1) s (all h low high))
  capture-Covers {c = c} {s = s} (captured_next {t = t} below e run) all =
      capture-Covers run (λ h low high. elim (Bool-cases (leb_ℤ h c)) [
        | inl old ↦
            subst (λ r. Captured h r.1) e
              (durable.process_keeps h (c +ℤ pos 1) s (all h low (leb→le _ _ old)))
        | inr young ↦
            let same : c +ℤ pos 1 ≡ h = last_height c h high young in
            subst (λ k. Captured k t) same (durable.advances (c +ℤ pos 1) s t e)
      ])

  rescan-Captured :
      {hs : List ℤ} {s u : S} {result : Option LiveFault} (k : ℤ)
      → RescanRun chain.rescan_height hs s u result
      → Captured k s
      → Captured k u
  rescan-Captured k rescanned_all c = c
  rescan-Captured {s = s} k (rescanned_next {h = h} e survived run) c =
      rescan-Captured k run (subst (λ r. Captured k r.1) e (durable.rescan_keeps k h s c))
  rescan-Captured {s = s} k (rescan_stopped {h = h} e stops) c =
      subst (λ r. Captured k r.1) e (durable.rescan_keeps k h s c)

  pub tick-Covers :
      {cursor d : ℤ} {window : TickWindow} {s u : S} {result : Option LiveFault}
      → TickRun chain.rescan_height chain.process_height cursor window s d u result
      → Covers Captured first cursor s
      → Covers Captured first d u
  tick-Covers (stopped_rescan run) all = λ h low high. rescan-Captured h run (all h low high)
  tick-Covers (nothing_new run above) all = λ h low high. rescan-Captured h run (all h low high)
  tick-Covers (captured_new run below new) all =
      capture-Covers new (λ h low high. rescan-Captured h run (all h low high))
