-- ===== src/Follow/Runs.antt =====
-- crates/mmm-producers/src/bitcoin_core_backbone/live.rs: the rounds of the supervised follow producer.
use merge_mining_monitor.Base.{
  All, List, Option, Result, [], ap, err, inl, inr, length, none, ok, refl, some, sym, take, true,
  ℕ, ◌∙◌, ◌∷◌, ◌≡◌, ◌≤◌, ◌⊎◌,
}
use merge_mining_monitor.Follow.{
  FollowCalls, FollowProducer, fails_stop, stalled_fault, wait_after_live_tick,
}
use merge_mining_monitor.Follow.Faults.{
  OnlyStops, fatal_of, follow_tick-OnlyStops, paired-err, wait-stalled,
}
use merge_mining_monitor.Follow.Kept.{follow_tick_stall}
use merge_mining_monitor.Follow.Stall.{Stalls, stall_after, wait_after_live_tick-Stalls}
use merge_mining_monitor.Follow.Tick.{follow_tick, follow_wait, live_follower}
use merge_mining_monitor.Live.{
  CycleState, LiveFault, TickOutcome, after_fault, cycle_of, paired, recovery_state, round,
}
use merge_mining_monitor.Live.Rounds.{is_fatal}

module _ {S : Type 0} (calls : FollowCalls S) where
  -- A producer behind rounds that did not end the loop, with the outcomes of its ticks, the last one
  -- first. It starts without a stall, and a tick with a fault that is waited for has no outcome.
  pub data Supervised : FollowProducer S → List TickOutcome → Type 0 where
    fresh : {p : FollowProducer S} → p.stall ≡ 0 → Supervised p []
    ticked :
        {p p' q : FollowProducer S} {outcomes : List TickOutcome} {outcome : TickOutcome}
        {paced : CycleState × ℕ}
        → Supervised p outcomes
        → follow_tick calls p ≡ (ok outcome, p')
        → round (live_follower calls) (ok outcome, p') ≡ (ok paced, q)
        → Supervised q (outcome ∷ outcomes)
    waited :
        {p p' q : FollowProducer S} {outcomes : List TickOutcome} {fault : LiveFault}
        {paced : CycleState × ℕ}
        → Supervised p outcomes
        → follow_tick calls p ≡ (err fault, p')
        → round (live_follower calls) (err fault, p') ≡ (ok paced, q)
        → Supervised q outcomes

  paired-ok :
      (state : CycleState) (r : Result LiveFault ℕ × FollowProducer S) {paced : CycleState × ℕ}
      {q : FollowProducer S}
      → paired (live_follower calls) state r ≡ (ok paced, q)
      → r.1 ≡ q
  unfolding paired
  paired-ok state (ok delay, p) e = ap (λ x. x.1) e
  paired-ok state (err fault, p) e = cc

  ticked_stall :
      (outcome : TickOutcome) (p q : FollowProducer S) {paced : CycleState × ℕ}
      → round (live_follower calls) (ok outcome, p) ≡ (ok paced, q)
      → (wait_after_live_tick outcome p.stall 0).1 ≡ q.stall
  unfolding round live_follower follow_wait wait_after_live_tick
  ticked_stall outcome p q e =
      ap (λ (x : FollowProducer S). x.stall)
        (paired-ok (cycle_of outcome) (follow_wait calls p (ok outcome)) e)

  waited_same :
      (fault : LiveFault) (p q : FollowProducer S) {paced : CycleState × ℕ}
      → round (live_follower calls) (err fault, p) ≡ (ok paced, q)
      → p ≡ q
  unfolding round live_follower follow_wait after_fault paired
  waited_same fault p q e = by_state (recovery_state fault) e
    where
      by_state :
          (state : Option CycleState) {paced : CycleState × ℕ}
          → after_fault (live_follower calls) fault state p ≡ (ok paced, q)
          → p ≡ q
      by_state (some state) e = ap (λ x. x.1) e
      by_state none e = cc

  tick_keeps :
      (p : FollowProducer S) {answer : Result LiveFault TickOutcome} {p' : FollowProducer S}
      → follow_tick calls p ≡ (answer, p')
      → p'.stall ≡ p.stall
  tick_keeps p e =
      ap (λ (x : Result LiveFault TickOutcome × FollowProducer S). x.1.stall) (sym e)
      ∙ follow_tick_stall calls p

  -- The count of a supervised producer is the one behind its outcomes.
  Supervised-stall_after :
      {p : FollowProducer S} {outcomes : List TickOutcome}
      → Supervised p outcomes
      → p.stall ≡ stall_after outcomes
  unfolding stall_after
  Supervised-stall_after (fresh e) = e
  Supervised-stall_after (ticked {p = p} {p' = p'} {q = q} {outcome = outcome} before tick paced) =
      let same = tick_keeps p tick ∙ Supervised-stall_after before in
      sym (ticked_stall outcome p' q paced) ∙ ap (λ n. (wait_after_live_tick outcome n 0).1) same
  Supervised-stall_after (waited {p = p} {p' = p'} {q = q} {fault = fault} before tick paced) =
      ap (λ (x : FollowProducer S). x.stall) (sym (waited_same fault p' q paced))
      ∙ tick_keeps p tick
      ∙ Supervised-stall_after before

  failed_tick :
      (fault' : LiveFault) (p : FollowProducer S) (state : Option CycleState) {fault : LiveFault}
      → recovery_state fault' ≡ state
      → fails_stop fault' ≡ true
      → (after_fault (live_follower calls) fault' state p).0 ≡ err fault
      → is_fatal fault ≡ true
  unfolding after_fault paired live_follower follow_wait
  failed_tick fault' p (some state) e1 h e2 = cc
  failed_tick fault' p none {fault} e1 h e2 =
      let same : fault' ≡ fault = cc in rw (← same) (fatal_of fault' h e1)

  -- how a round that starts with `p` ends the loop: with a fault that is fatal, or stalled by the last five
  -- outcomes
  abbrev pub StopsRun : FollowProducer S → List TickOutcome → LiveFault → Type 0
  StopsRun p outcomes fault =
      (is_fatal fault ≡ true)
      ⊎ ((fault ≡ stalled_fault)
          × (outcome : TickOutcome) × ((follow_tick calls p).0 ≡ ok outcome)
          × (5 ≤ length (outcome ∷ outcomes))
          × All Stalls (take 5 (outcome ∷ outcomes)))

  -- When the supervised follow producer started without a stall, a round ends its loop only with a fault
  -- of the node, of the header cache or of the backbone's integrity, or when the last five outcomes of
  -- its ticks, this round's among them, neither progressed nor stood at the tip. The check of Core's
  -- readiness is taken to fail only in such a way or in one that is waited for.
  pub Supervised-StopsRun :
      ((s : S) → OnlyStops (calls.ready_tip s))
      → (p : FollowProducer S) (outcomes : List TickOutcome) (fault : LiveFault)
      → Supervised p outcomes
      → (round (live_follower calls) (follow_tick calls p)).0 ≡ err fault
      → StopsRun p outcomes fault
  unfolding round live_follower follow_wait
  Supervised-StopsRun ready p outcomes fault run e =
      by_tick (follow_tick calls p) refl (follow_tick-OnlyStops calls ready p) e
    where
      by_tick :
          (r : Result LiveFault TickOutcome × FollowProducer S)
          → follow_tick calls p ≡ r
          → OnlyStops r
          → (round (live_follower calls) r).0 ≡ err fault
          → StopsRun p outcomes fault
      by_tick (err fault', p') tick only e =
          inl (failed_tick fault' p' (recovery_state fault') refl (only fault' refl) e)
      by_tick (ok outcome, p') tick only e =
          let failed =
            paired-err (live_follower calls) (cycle_of outcome) (follow_wait calls p' (ok outcome))
              e in
          let same = tick_keeps p tick ∙ Supervised-stall_after run in
          let (stalled, _) = wait-stalled outcome p'.stall p'.follow_interval failed in
          let failed' : (wait_after_live_tick outcome (stall_after outcomes) p'.follow_interval).0
              ≡ err stalled_fault =
            rw (same, stalled) at failed in
          let (long, all) =
            (wait_after_live_tick-Stalls outcome outcomes p'.follow_interval).0 failed' in
          inr (stalled, outcome, ap (λ x. x.0) tick, long, all)
