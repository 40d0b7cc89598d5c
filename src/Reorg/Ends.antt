-- ===== src/Reorg/Ends.antt =====
-- crates/mmm-producers/src/bitcoin_core_backbone/reorg.rs: the loop of the repair ends.
use merge_mining_monitor.Backbone.{
  BackboneTip, CanonicalRow, CoreViewRow, RepairPlan, RepairPlanError, no_hash_conflict,
  plan_repair, replace_from,
}
use merge_mining_monitor.Base.{
  Bool, Bool-cases, List, Option, Result, arith, err, false, inl, inr, ok, refl, some, suc, true,
  zero, ℕ, ◌+◌, ◌<◌, ◌≡◌, ◌≤◌,
}
use merge_mining_monitor.Base.Int.{ℤ}
use merge_mining_monitor.Base.Steps.{Step, after}
use merge_mining_monitor.Bitcoin.{Library}
use merge_mining_monitor.Follow.{SyncStats}
use merge_mining_monitor.Live.{LiveFault}
use merge_mining_monitor.Reorg.{
  CursorOutcome, ReorgFault, RepairCalls, RoundEnd, again, finished, is_height_conflict, not_needed,
  plan_fault, recorded, replaced, replan,
}
use merge_mining_monitor.Reorg.Rounds.{
  behind_cursor, gaps_filled, repair_near_tip_backbone_to_target, repair_round, repair_rounds,
  resumed, suffix_planned, view_repaired,
}

abbrev bit : Bool → ℕ
bit true = 1
bit false = 0

-- how often may still be planned again
abbrev pub plans_left : Bool → Bool → ℕ
plans_left may_gap may_race = bit may_gap + bit may_race

-- Another round may be planned less often than this one.
Lowers : {W : Type 0} → Bool → Bool → Result ReorgFault RoundEnd × W → Type 0
Lowers may_gap may_race (ok (again left_gap left_race sum), w) =
    plans_left left_gap left_race < plans_left may_gap may_race
Lowers may_gap may_race _ = Unit {0}

module _ {W : Type 0} (may_gap may_race : Bool) where
  Lowers-after :
      {A : Type 0} (first : Result ReorgFault A × W) (next : A → Step W ReorgFault RoundEnd)
      → ((a : A) (w : W) → Lowers may_gap may_race (next a w))
      → Lowers may_gap may_race (after first next)
  unfolding after Lowers
  Lowers-after (ok a, w) next h = h a w
  Lowers-after (err fault, w) next h = tt

module _ (lib : Library) {W : Type 0} (calls : RepairCalls W) (window_heights : ℤ)
    (target : BackboneTip) where
  recorded-Lowers :
      (may_gap may_race : Bool) (fault : ReorgFault) (w : W)
      → Lowers may_gap may_race (recorded lib calls {A = RoundEnd} fault w)
  unfolding recorded Lowers
  recorded-Lowers may_gap may_race fault w = Lowers-after may_gap may_race _ _ (λ a w'. tt)

  gaps_filled-Lowers :
      (may_gap may_race : Bool) (sum : SyncStats) (filled : Result LiveFault SyncStats × W)
      → Lowers may_gap may_race
          (gaps_filled lib calls window_heights target may_gap may_race sum filled)
  unfolding gaps_filled Lowers
  gaps_filled-Lowers may_gap may_race sum (ok stats, w) = tt
  gaps_filled-Lowers false may_race sum (err fault, w) = tt
  gaps_filled-Lowers true may_race sum (err fault, w) =
      elim (Bool-cases (is_height_conflict fault)) [
        | inr other ↦ rw other tt
        | inl conflict ↦ rw conflict (omega arith)
      ]

  suffix_planned-Lowers :
      (may_gap may_race : Bool) (sum : SyncStats) (cursor : ℤ) (view : List CoreViewRow)
      (rows : List CanonicalRow) (plan : Result RepairPlanError RepairPlan) (w : W)
      → Lowers may_gap may_race (
          suffix_planned lib calls window_heights target may_gap may_race sum cursor view rows plan
            w)
  unfolding suffix_planned Lowers
  suffix_planned-Lowers may_gap may_race sum cursor view rows (err fault) w =
      recorded-Lowers may_gap may_race (plan_fault fault) w
  suffix_planned-Lowers may_gap may_race sum cursor view rows (ok no_hash_conflict) w =
      gaps_filled-Lowers may_gap may_race sum (calls.repair_gaps target w)
  suffix_planned-Lowers may_gap may_race sum cursor view rows (ok (replace_from first)) w =
      Lowers-after may_gap may_race _ _
        (λ stats w'. Lowers-after may_gap may_race _ _ (λ gap_stats w''. tt))

  view_repaired-Lowers :
      (may_gap may_race : Bool) (sum : SyncStats) (cursor : ℤ) (w : W)
      → Lowers may_gap may_race
          (view_repaired lib calls window_heights target may_gap may_race sum cursor w)
  unfolding view_repaired
  view_repaired-Lowers may_gap may_race sum cursor w = Lowers-after may_gap may_race _ _ (λ view w1.
      Lowers-after may_gap may_race _ _ (λ stable w2. Lowers-after may_gap may_race _ _ (λ rows w3.
        suffix_planned-Lowers may_gap may_race sum cursor view rows (plan_repair view rows) w3)))

  behind_cursor-Lowers :
      (may_gap may_race : Bool) (sum : SyncStats) (cursor : ℤ) (outcome : CursorOutcome) (w : W)
      → calls.is_live ≡ true
      → Lowers may_gap may_race
          (behind_cursor lib calls window_heights target may_gap may_race sum cursor outcome w)
  unfolding behind_cursor Lowers
  behind_cursor-Lowers may_gap may_race sum cursor not_needed w live =
      view_repaired-Lowers may_gap may_race sum cursor w
  behind_cursor-Lowers may_gap false sum cursor replan w live = tt
  behind_cursor-Lowers may_gap true sum cursor replan w live = omega arith
  behind_cursor-Lowers may_gap may_race sum cursor (replaced stats) w live = rw live tt

  repair_round-Lowers :
      (may_gap may_race : Bool) (sum : SyncStats) (w : W)
      → calls.is_live ≡ true
      → Lowers may_gap may_race
          (repair_round lib calls window_heights target may_gap may_race sum w)
  unfolding repair_round
  repair_round-Lowers may_gap may_race sum w live = Lowers-after may_gap may_race _ _ (λ state w1.
      Lowers-after may_gap may_race _ _ (λ bounded w2.
        Lowers-after may_gap may_race _ _
          (λ outcome w3. behind_cursor-Lowers may_gap may_race sum state.0 outcome w3 live)))

  -- A loop ends when its round lowers the plans left, and the rounds behind it end.
  resumed_ends :
      (may_gap may_race : Bool)
      (next : Bool → Bool → SyncStats → W → Option (Result ReorgFault SyncStats × W))
      (answer : Result ReorgFault RoundEnd × W)
      → Lowers may_gap may_race answer
      → ((left_gap left_race : Bool) (sum : SyncStats) (w : W)
          → plans_left left_gap left_race < plans_left may_gap may_race
          → (r : Result ReorgFault SyncStats × W) × (next left_gap left_race sum w ≡ some r))
      → (r : Result ReorgFault SyncStats × W) × (resumed lib calls window_heights target next answer
          ≡ some r)
  unfolding resumed Lowers
  resumed_ends may_gap may_race next (ok (finished stats), w) lower later = ((ok stats, w), refl)
  resumed_ends may_gap may_race next (err fault, w) lower later = ((err fault, w), refl)
  resumed_ends may_gap may_race next (ok (again left_gap left_race sum), w) lower later =
      later left_gap left_race sum w lower

  repair_rounds_end :
      (n : ℕ) (may_gap may_race : Bool) (sum : SyncStats) (w : W)
      → calls.is_live ≡ true
      → plans_left may_gap may_race < n
      → (r : Result ReorgFault SyncStats × W) × (repair_rounds lib calls window_heights target n
            may_gap may_race sum w
          ≡ some r)
  unfolding repair_rounds
  repair_rounds_end zero may_gap may_race sum w live h = absurd (omega arith)
  repair_rounds_end (suc n) may_gap may_race sum w live h =
      resumed_ends may_gap may_race (repair_rounds lib calls window_heights target n)
        (repair_round lib calls window_heights target may_gap may_race sum w)
        (repair_round-Lowers may_gap may_race sum w live)
        (λ left_gap left_race s w' fewer.
          repair_rounds_end n left_gap left_race s w' live (omega (arith, h, fewer)))

  -- In a live run the repair of the near-tip backbone gives a result after at most three rounds, whatever
  -- Core and the store answer: with three rounds or more, the loop does not run out of them.
  pub repair_near_tip_backbone_ends :
      (n : ℕ) (w : W)
      → calls.is_live ≡ true
      → 3 ≤ n
      → (r : Result ReorgFault SyncStats × W) × (repair_near_tip_backbone_to_target lib calls
            window_heights target n w
          ≡ some r)
  unfolding repair_near_tip_backbone_to_target
  repair_near_tip_backbone_ends n w live h =
      repair_rounds_end n true true _ w live (omega (arith, h))
