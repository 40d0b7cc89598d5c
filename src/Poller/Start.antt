-- ===== src/Poller/Start.antt =====
-- crates/mmm-producers/src/poller/mod.rs: the start of a poller, `Poller::new`.
use merge_mining_monitor.Base.{
  Bool, Option, Result, err, false, if◌then◌else◌, is_none, none, ok, some, true, ℕ,
}
use merge_mining_monitor.Base.Int.{pos, ℤ}
use merge_mining_monitor.Base.Steps.{Step, returned, ◌>>=◌, ◌>>◌}
use merge_mining_monitor.Live.{LiveFault}
use merge_mining_monitor.Nbits.{sub_i32}
use merge_mining_monitor.Poller.{PollerConfig, effective_seed_cursor, effective_start}
use merge_mining_monitor.Poller.Session.{ChainPoller, fetch_tip_with_retry}

module _ {S : Type 0} (chain : ChainPoller S) where
  open chain use {
    activation_floor, reconcile_read_model, is_budget_exhausted, check_known_stale,
    load_poll_cursor, upsert_poll_cursor,
  }

  repaired : Result LiveFault ℕ × S → Result LiveFault (Unit {0}) × S
  repaired (ok count, s) = (ok tt, s)
  repaired (err fault, s) = (if is_budget_exhausted fault then ok tt else err fault, s)

  unfoldable pub run_startup_repair : Step S LiveFault (Unit {0})
  unfolding repaired
  run_startup_repair s = repaired (reconcile_read_model s)

  -- A seed is a cursor, whether it is persisted, and its target.
  seed_without_row : PollerConfig → ℤ → Option ℤ → Step S LiveFault (ℤ × Bool × Option ℤ)
  unfolding fetch_tip_with_retry
  seed_without_row config start (some persisted) =
      returned (effective_seed_cursor persisted start, false, none)
  seed_without_row config start none = do
    tip ← fetch_tip_with_retry chain
    returned (effective_seed_cursor (sub_i32 tip config.reorg_depth) start, true, some tip)

  seed_from : PollerConfig → ℤ → Option ℤ → Step S LiveFault (ℤ × Bool × Option ℤ)
  unfolding seed_without_row
  seed_from config start (some override) = do
    row ← load_poll_cursor
    returned (effective_seed_cursor (sub_i32 override (pos 1)) start, is_none row, none)
  seed_from config start none = do row ← load_poll_cursor; seed_without_row config start row

  persist_seed : ℤ × Bool × Option ℤ → Step S LiveFault ℤ
  persist_seed (cursor, true, target) = do upsert_poll_cursor cursor target; returned cursor
  persist_seed (cursor, false, target) = returned cursor

  -- `Poller::new`: the cursor of the new poller
  unfoldable pub new_cursor : PollerConfig → Step S LiveFault ℤ
  unfolding run_startup_repair seed_from persist_seed
  new_cursor config = do
    run_startup_repair
    check_known_stale
    seed ←
        seed_from config (effective_start config.start_height_override activation_floor)
          config.start_height_override
    persist_seed seed
