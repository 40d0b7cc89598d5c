-- ===== src/Live/Rounds.antt =====
-- crates/mmm-producers/src/live_loop.rs: what every round keeps, the loop keeps.
use merge_mining_monitor.Base.{Bool, List, Option, Result, [], err, ok, ◌||◌, ◌∷◌}
use merge_mining_monitor.Follow.Tick.{kept}
use merge_mining_monitor.Live.{
  Clock, LiveFault, LiveProducer, RetryPolicy, WaitDecision, is_backbone_integrity_error,
  is_cache_integrity, is_core_fault, round, run_ticks, settle, stop_or,
}

-- a fault that no round waits for
abbrev pub is_fatal : LiveFault → Bool
is_fatal fault =
    is_core_fault fault || is_cache_integrity fault || is_backbone_integrity_error fault

module _ {P : Type 0} (producer : LiveProducer P) (Keeps : P → Type 0) where
  stop_or-Keeps :
      (settled : Result LiveFault WaitDecision) (reached : RetryPolicy × P)
      (rest : Option LiveFault × RetryPolicy × P)
      → Keeps reached.1
      → Keeps rest.2
      → Keeps (stop_or producer settled reached rest).2
  unfolding stop_or
  stop_or-Keeps (ok decision) reached rest h k = k
  stop_or-Keeps (err fault) reached rest h k = h

  pub run_ticks-Keeps :
      ((clock : Clock) (policy : RetryPolicy) (p : P)
        → Keeps p
        → Keeps (settle producer clock policy (round producer (producer.tick p))).2)
      → (clocks : List Clock) (policy : RetryPolicy) (p : P) → Keeps p
      → Keeps (run_ticks producer clocks policy p).2
  unfolding run_ticks
  run_ticks-Keeps kept [] policy p h = h
  run_ticks-Keeps kept (clock ∷ clocks) policy p h =
      let (settled, policy', p') =
        settle producer clock policy (round producer (producer.tick p)) in
      let h' = kept clock policy p h in
      stop_or-Keeps settled (policy', p') (run_ticks producer clocks policy' p') h'
        (run_ticks-Keeps kept clocks policy' p' h')
