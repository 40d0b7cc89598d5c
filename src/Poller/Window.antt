-- ===== src/Poller/Window.antt =====
-- crates/mmm-producers/src/poller/mod.rs: the window of a tick.
use mathlib.Core.Path.{subst}
use merge_mining_monitor.Base.{Bool-cases, arith, false, inl, inr, refl, some, ◌-◌, ◌^◌, ◌≡◌}
use merge_mining_monitor.Base.Int.{
  +ℤ_parts, -ℤ_parts, leb_ℤ, ltb_ℤ, negsuc, pos, ℤ, ◌+ℤ◌, ◌-ℤ◌, ◌<ℤ◌, ◌≤ℤ◌,
}
use merge_mining_monitor.Base.Ranges.{
  IsI32-parts, le-saturate_i32, min_ℤ, saturate_i32, saturate_i32-IsI32, saturate_i32-le,
  saturate_i32_le_of,
}
use merge_mining_monitor.Base.Words.{IsI32}
use merge_mining_monitor.Nbits.{max_ℤ}
use merge_mining_monitor.Poller.{TickWindow, compute_tick_window, rescan_floor}

max_ℤ_le : (a b c : ℤ) → a ≤ℤ c → b ≤ℤ c → max_ℤ a b ≤ℤ c
max_ℤ_le a b c h k = ground arith

le_max_ℤ : (a b : ℤ) → (a ≤ℤ max_ℤ a b) × (b ≤ℤ max_ℤ a b)
le_max_ℤ a b = ground arith

min_ℤ_le : (a b : ℤ) → (min_ℤ a b ≤ℤ a) × (min_ℤ a b ≤ℤ b)
min_ℤ_le a b = ground arith

le_min_ℤ : (a b c : ℤ) → c ≤ℤ a → c ≤ℤ b → c ≤ℤ min_ℤ a b
le_min_ℤ a b c h k = ground arith

not_ltb_ℤ : (a b c : ℤ) → b ≤ℤ c → c ≤ℤ a → ltb_ℤ a b ≡ false
not_ltb_ℤ a b c h k = ground arith

min_ℤ-IsI32 : (a b : ℤ) → IsI32 a → IsI32 b → IsI32 (min_ℤ a b)
min_ℤ-IsI32 a b h k = elim (Bool-cases (leb_ℤ a b)) [ inl e ↦ rw e h | inr e ↦ rw e k ]

pub compute_tick_window-IsI32 :
    (start cursor tip depth batch : ℤ) (w : TickWindow)
    → IsI32 tip
    → compute_tick_window start cursor tip depth batch ≡ some w
    → IsI32 w.window_end
unfolding compute_tick_window
compute_tick_window-IsI32 start cursor tip depth batch w h e =
    let stop = min_ℤ tip (saturate_i32 (cursor +ℤ batch)) in
    let first = max_ℤ start (rescan_floor cursor depth) in
    elim (Bool-cases (ltb_ℤ stop first)) [
      | inl empty ↦ let e' = rw empty at e in cc
      | inr full ↦
          let e' = rw full at e in
          let same : record { rescan_start = first; window_end = stop } ≡ w = cc in
          subst (λ v. IsI32 v.window_end) same
            (min_ℤ-IsI32 tip _ h (saturate_i32-IsI32 (cursor +ℤ batch)))
    ]

-- What the code relies on in a tick: its heights and settings are i32, and the checked settings.
pub record IsTick (start cursor tip depth batch : ℤ) : Type 0 where
  pub start_IsI32 : IsI32 start
  pub cursor_IsI32 : IsI32 cursor
  pub tip_IsI32 : IsI32 tip
  pub depth_le : pos 0 ≤ℤ depth
  pub batch_lt : pos 0 <ℤ batch
  pub seeded : start ≤ℤ cursor +ℤ pos 1
  pub cursor_lt : cursor <ℤ pos (2 ^ 31 - 1)

pub record IsWindow (start cursor tip batch : ℤ) (w : TickWindow) : Type 0 where
  pub above_start : start ≤ℤ w.rescan_start
  pub no_gap : w.rescan_start ≤ℤ cursor +ℤ pos 1
  pub below_tip : w.window_end ≤ℤ tip
  pub in_batch : w.window_end ≤ℤ cursor +ℤ batch
  pub end_IsI32 : IsI32 w.window_end

suc_in_range : (c : ℤ) → IsI32 c → c <ℤ pos (2 ^ 31 - 1) → IsI32 (c +ℤ pos 1)
unfolding ◌+ℤ◌
suc_in_range (pos n) h k = ground arith
suc_in_range (negsuc n) h k = ground arith

module _ (start cursor tip depth batch : ℤ) (tick : IsTick start cursor tip depth batch) where
  open tick use {cursor_IsI32, tip_IsI32, depth_le, batch_lt, seeded, cursor_lt}

  suc-IsI32 : IsI32 (cursor +ℤ pos 1)
  suc-IsI32 = suc_in_range cursor cursor_IsI32 cursor_lt

  floor_le : rescan_floor cursor depth ≤ℤ cursor +ℤ pos 1
  unfolding rescan_floor
  floor_le =
      let h = saturate_i32_le_of (cursor +ℤ pos 1) (cursor +ℤ pos 1) suc-IsI32 (omega arith) in
      saturate_i32_le_of (saturate_i32 (cursor +ℤ pos 1) -ℤ depth) (cursor +ℤ pos 1) suc-IsI32
        (omega (arith, -ℤ_parts (saturate_i32 (cursor +ℤ pos 1)) depth))

  abbrev window_start : ℤ
  window_start = max_ℤ start (rescan_floor cursor depth)

  abbrev window_stop : ℤ
  window_stop = min_ℤ tip (saturate_i32 (cursor +ℤ batch))

  is_window :
      IsWindow start cursor tip batch
        (record { rescan_start = window_start; window_end = window_stop })
  is_window =
      let (le_tip, le_batch) = min_ℤ_le tip (saturate_i32 (cursor +ℤ batch)) in
      let held : saturate_i32 (cursor +ℤ batch) ≤ℤ cursor +ℤ batch =
        saturate_i32-le (cursor +ℤ batch)
          (omega (arith, +ℤ_parts cursor batch, IsI32-parts cursor cursor_IsI32)) in
      record {
        above_start = (le_max_ℤ start (rescan_floor cursor depth)).0;
        no_gap = max_ℤ_le start (rescan_floor cursor depth) (cursor +ℤ pos 1) seeded floor_le;
        below_tip = le_tip;
        in_batch = omega arith;
        end_IsI32 = min_ℤ-IsI32 tip _ tip_IsI32 (saturate_i32-IsI32 (cursor +ℤ batch));
      }

  -- A window of a tick starts at the effective start or later, leaves no height between the cursor and
  -- its first, and ends at the tip or before and within a batch of the cursor.
  pub compute_tick_window-IsWindow :
      (w : TickWindow)
      → compute_tick_window start cursor tip depth batch ≡ some w
      → IsWindow start cursor tip batch w
  unfolding compute_tick_window
  compute_tick_window-IsWindow w e = elim (Bool-cases (ltb_ℤ window_stop window_start)) [
    | inl empty ↦ let e' = rw empty at e in cc
    | inr full ↦
        let e' = rw full at e in
        let same : record { rescan_start = window_start; window_end = window_stop } ≡ w = cc in
        subst (IsWindow start cursor tip batch) same is_window
  ]

  -- While the cursor is below the tip, a tick has a window, and the window holds a new height.
  pub compute_tick_window_progress :
      cursor <ℤ tip
      → (w : TickWindow) × (compute_tick_window start cursor tip depth batch ≡ some w)
        × (cursor <ℤ w.window_end)
  unfolding compute_tick_window
  compute_tick_window_progress below =
      let held = le-saturate_i32 (cursor +ℤ pos 1) (cursor +ℤ batch) suc-IsI32 room in
      let reaches =
        le_min_ℤ tip _ (cursor +ℤ pos 1) (omega (arith, +ℤ_parts cursor (pos 1))) held in
      let above : cursor <ℤ window_stop = omega (arith, +ℤ_parts cursor (pos 1)) in
      let first = is_window.no_gap in
      let full : ltb_ℤ window_stop window_start ≡ false =
        not_ltb_ℤ window_stop window_start (cursor +ℤ pos 1) first reaches in
      rw full (record { rescan_start = window_start; window_end = window_stop }, refl, above)
    where
      room : cursor +ℤ pos 1 ≤ℤ cursor +ℤ batch
      room = omega (arith, +ℤ_parts cursor (pos 1), +ℤ_parts cursor batch)
