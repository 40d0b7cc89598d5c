-- ===== src/Poller.antt =====
-- crates/mmm-producers/src/poller/mod.rs: the driver that polls a child chain. A chain is a state and
-- the calls of `ChainPoller`, each of which returns the changed state; heights are i32.
pub mod Capture
pub mod Policy
pub mod Window
pub mod Session
pub mod Start
pub mod Covered
pub mod Invariant
pub mod Retry
pub mod Supervised
use merge_mining_monitor.Base.{
  Bool, List, Option, Result, String, [], ensure, err, false, if◌then◌else◌, ltb, none, ok, some,
  true, ℕ, ◌*◌, ◌+◌, ◌>>=◌, ◌>>◌, ◌∷◌,
}
use merge_mining_monitor.Base.Int.{leb_ℤ, ltb_ℤ, pos, ℤ, ◌+ℤ◌, ◌-ℤ◌}
use merge_mining_monitor.Base.Ranges.{heights_between, min_ℤ, saturate_i32}
use merge_mining_monitor.Live.{LiveFault, must_propagate}
use merge_mining_monitor.Nbits.{add_i32, lookup, max_ℤ, sub_i32}

pub data HeightProgress : Type 0 where
  advance_height hold_height : HeightProgress

pub data TickHeight : Type 0 where
  rescan_kind new_kind : TickHeight

pub record PollerDefaults : Type 0 where
  pub default_interval_seconds : ℕ
  pub default_batch_size : ℤ
  pub default_reorg_depth : ℤ

pub record PollerConfig : Type 0 where
  pub start_height_override : Option ℤ
  pub poll_interval : ℕ
  pub batch_size : ℤ
  pub reorg_depth : ℤ

-- the refusals of the configuration: a value that does not parse, by its key, or that is out of range
pub data ConfigFault : Type 0 where
  invalid_value : String → ConfigFault
  negative_start zero_interval batch_not_positive negative_depth : ConfigFault

-- the parse of a value that is present
parsed {ℓ} : {A : Type ℓ} → String → Option A → Result ConfigFault A
parsed key none = err (invalid_value key)
parsed key (some a) = ok a

unfoldable pub parse_lookup_or {ℓ} :
    {A : Type ℓ} → (String → Option A) → String → Option String → A → Result ConfigFault A
unfolding parsed
parse_lookup_or parse key none default = ok default
parse_lookup_or parse key (some value) default = parsed key (parse value)

abbrev some_of {ℓ} : {A : Type ℓ} → Result ConfigFault A → Result ConfigFault (Option A)
some_of (ok a) = ok (some a)
some_of (err fault) = err fault

unfoldable pub parse_lookup_opt :
    (String → Option ℤ) → String → Option String → Result ConfigFault (Option ℤ)
unfolding parsed
parse_lookup_opt parse key none = ok none
parse_lookup_opt parse key (some value) = some_of (parsed key (parse value))

abbrev not_negative : Option ℤ → Bool
not_negative none = true
not_negative (some start) = leb_ℤ (pos 0) start

-- The two `str::parse` are arguments, and so is the environment: a value for each of the four keys.
unfoldable pub from_lookup :
    (String → Option ℤ)
    → (String → Option ℕ)
    → PollerDefaults
    → (String → Option String)
    → Result ConfigFault PollerConfig
unfolding parse_lookup_opt parse_lookup_or
from_lookup parse_i32 parse_u64 defaults lookup = do
  start ← parse_lookup_opt parse_i32 "START_HEIGHT" (lookup "START_HEIGHT")
  seconds ←
      parse_lookup_or parse_u64 "POLL_INTERVAL_SECONDS" (lookup "POLL_INTERVAL_SECONDS")
        defaults.default_interval_seconds
  batch ← parse_lookup_or parse_i32 "BATCH_SIZE" (lookup "BATCH_SIZE") defaults.default_batch_size
  depth ←
      parse_lookup_or parse_i32 "REORG_DEPTH" (lookup "REORG_DEPTH") defaults.default_reorg_depth
  ensure (not_negative start) negative_start
  ensure (ltb 0 seconds) zero_interval
  ensure (ltb_ℤ (pos 0) batch) batch_not_positive
  ensure (leb_ℤ (pos 0) depth) negative_depth
  ok (record {
    start_height_override = start;
    poll_interval = 1000 * seconds;
    batch_size = batch;
    reorg_depth = depth;
  })

pub record TickWindow : Type 0 where
  pub rescan_start : ℤ
  pub window_end : ℤ

unfoldable pub effective_start : Option ℤ → ℤ → ℤ
effective_start none activation_floor = activation_floor
effective_start (some start) activation_floor = max_ℤ start activation_floor

unfoldable pub effective_seed_cursor : ℤ → ℤ → ℤ
effective_seed_cursor seeded effective_start = max_ℤ seeded (sub_i32 effective_start (pos 1))

unfoldable pub rescan_floor : ℤ → ℤ → ℤ
unfolding saturate_i32
rescan_floor cursor reorg_depth = saturate_i32 (saturate_i32 (cursor +ℤ pos 1) -ℤ reorg_depth)

unfoldable pub compute_tick_window : ℤ → ℤ → ℤ → ℤ → ℤ → Option TickWindow
unfolding rescan_floor saturate_i32
compute_tick_window effective_start cursor tip reorg_depth batch_size =
    let start = max_ℤ effective_start (rescan_floor cursor reorg_depth) in
    let end = min_ℤ tip (saturate_i32 (cursor +ℤ batch_size)) in
    if ltb_ℤ end start then none else some (record { rescan_start = start; window_end = end })

pub record TickProgress : Type 0 where
  pub processed : ℕ
  pub held : Bool

abbrev pub no_progress : TickProgress
no_progress = record { processed = 0; held = false }

-- what `run_tick_policy_counting` changes through its `&mut`s, and the chain
pub record TickState (S : Type 0) : Type 0 where
  pub tick_cursor : ℤ
  pub progress : TickProgress
  pub child : S

abbrev pub counted : TickProgress → TickProgress
counted progress = record progress { processed = progress.processed + 1 }

abbrev pub marked_held : TickProgress → TickProgress
marked_held progress = record progress { held = true }

abbrev pub Process : Type 0 → Type 0
Process S = S → ℤ → Result LiveFault HeightProgress × S

abbrev pub Ended : Type 0 → Type 0
Ended S = TickState S × Option LiveFault

module _ {S : Type 0} where
  -- the match of the first loop; `next` is its remaining rounds
  unfoldable pub replayed :
      (TickState S → Ended S) → TickState S → Result LiveFault HeightProgress × S → Ended S
  unfolding must_propagate
  replayed next t (ok hold_height, s) =
      next (record t { progress = counted (marked_held t.progress); child = s })
  replayed next t (ok advance_height, s) =
      next (record t { progress = counted t.progress; child = s })
  replayed next t (err fault, s) =
      if must_propagate fault
      then (record t { child = s }, some fault)
      else next (record t { progress = marked_held t.progress; child = s })

  unfoldable pub replay_heights : Process S → List ℤ → TickState S → Ended S
  unfolding replayed
  replay_heights rescan [] t = (t, none)
  replay_heights rescan (h ∷ hs) t = replayed (replay_heights rescan hs) t (rescan t.child h)

  -- the match of the second loop
  unfoldable pub captured :
      (TickState S → Ended S) → ℤ → TickState S → Result LiveFault HeightProgress × S → Ended S
  captured next h t (ok advance_height, s) =
      next
        (record { tick_cursor = max_ℤ t.tick_cursor h; progress = counted t.progress; child = s })
  captured next h t (ok hold_height, s) =
      (record t { progress = marked_held t.progress; child = s }, none)
  captured next h t (err fault, s) = (record t { child = s }, some fault)

  unfoldable pub capture_heights : Process S → List ℤ → TickState S → Ended S
  unfolding captured
  capture_heights process [] t = (t, none)
  capture_heights process (h ∷ hs) t = captured (capture_heights process hs) h t (process t.child h)

  unfoldable pub new_heights : Process S → ℤ → Ended S → Ended S
  unfolding capture_heights heights_between
  new_heights process end (t, some fault) = (t, some fault)
  new_heights process end (t, none) =
      if ltb_ℤ t.tick_cursor end
      then capture_heights process (heights_between (add_i32 t.tick_cursor (pos 1)) end) t
      else (t, none)

  -- both loops of `run_tick_policy_counting`, from a cursor and a chain
  unfoldable pub run_tick_policy_counting : Process S → Process S → ℤ → TickWindow → S → Ended S
  unfolding replay_heights heights_between new_heights
  run_tick_policy_counting rescan process cursor window s =
      let start : TickState S = record {
        tick_cursor = cursor;
        progress = no_progress;
        child = s;
      } in
      let replay_end = min_ℤ cursor window.window_end in
      new_heights process window.window_end
        (replay_heights rescan (heights_between window.rescan_start replay_end) start)
