-- ===== src/Backbone.antt =====
-- crates/mmm-producers/src/bitcoin_core_backbone/live_window.rs and reorg.rs: the window of canonical
-- rows below the tip of Bitcoin Core, and the plan that repairs it. The rows are those that the store
-- gives; the writes of the store, the texts of the errors and their record in the store are left out.
pub mod Rows
pub mod Linked
pub mod Window
pub mod Plan
pub mod Prefix
pub mod Repair
pub mod View
pub mod Replacement
use merge_mining_monitor.Base.{
  Bool, List, Option, Result, String, [], bytes_eq, ensure, err, false, if◌then◌else◌, none, not,
  ok, some, suc, true, zero, ℕ, ◌&&◌, ◌+◌, ◌-◌, ◌>>=◌, ◌>>◌, ◌^◌, ◌||◌, ◌∷◌,
}
use merge_mining_monitor.Base.Int.{eqb_ℤ, leb_ℤ, pos, pos_part, ℤ, ◌+ℤ◌, ◌-ℤ◌}
use merge_mining_monitor.Base.Ranges.{heights_between, saturate_i32}
use merge_mining_monitor.Base.Text.{same_text}
use merge_mining_monitor.Base.Words.{Bytes}
use merge_mining_monitor.Bitcoin.{Header}
use merge_mining_monitor.Nbits.{max_ℤ}

-- `CanonicalWindowRow` and `LocalCanonicalRow`, which have the same fields
pub record CanonicalRow : Type 0 where
  pub height : ℤ
  pub hash : Bytes
  pub prev_hash : Bytes
  pub coinbase_status : String

pub record BackboneTip : Type 0 where
  pub tip_height : ℤ
  pub tip_hash : Bytes

-- the reasons of a broken window, with the height that each is recorded at
pub data WindowFault : Type 0 where
  missing_height duplicate_height incomplete_coinbase prev_link_mismatch : ℤ → WindowFault
  tip_hash_mismatch target_hash_mismatch : ℤ → WindowFault

unfoldable pub live_backbone_window_start_height : ℤ → ℤ → ℤ
unfolding saturate_i32
live_backbone_window_start_height tip_height window_heights =
    max_ℤ (saturate_i32 (tip_height -ℤ saturate_i32 (window_heights -ℤ pos 1))) (pos 0)

-- The rows that the map keeps at a height, in their order. The loop takes each height out once.
unfoldable pub rows_at_height : List CanonicalRow → ℤ → List CanonicalRow
rows_at_height [] h = []
rows_at_height (r ∷ rs) h =
    let rest = rows_at_height rs h in if eqb_ℤ r.height h then r ∷ rest else rest

unfoldable pub take_single : ℤ → List CanonicalRow → Result WindowFault CanonicalRow
take_single h [] = err (missing_height h)
take_single h (r ∷ []) = ok r
take_single h (r ∷ r' ∷ rs) = err (duplicate_height h)

unfoldable pub is_complete : CanonicalRow → Bool
unfolding same_text
is_complete row = same_text row.coinbase_status "complete"

unfoldable pub links_to : Option Bytes → CanonicalRow → Bool
links_to none row = true
links_to (some previous) row = bytes_eq row.prev_hash previous

-- the loop over the heights, with the hash before and the hash of the tip
unfoldable pub verify_rows :
    List CanonicalRow → ℤ → List ℤ → Option Bytes → Option Bytes → Result WindowFault (Option Bytes)
unfolding take_single is_complete links_to rows_at_height
verify_rows rows target [] previous tip = ok tip
verify_rows rows target (h ∷ hs) previous tip = do
  row ← take_single h (rows_at_height rows h)
  ensure (is_complete row) (incomplete_coinbase row.height)
  ensure (links_to previous row) (prev_link_mismatch row.height)
  verify_rows rows target hs (some row.hash) (if eqb_ℤ h target then some row.hash else tip)

abbrev pub has_hash : Option Bytes → Bytes → Bool
has_hash none hash = false
has_hash (some reached) hash = bytes_eq reached hash

unfoldable pub verify_live_backbone_window_rows :
    List CanonicalRow → ℤ → BackboneTip → Result WindowFault (Unit {0})
unfolding verify_rows
verify_live_backbone_window_rows rows start target = do
  tip ← verify_rows rows target.tip_height (heights_between start target.tip_height) none none
  ensure (has_hash tip target.tip_hash) (tip_hash_mismatch target.tip_height)

-- `verify_live_backbone_window`, on Core's hash at the target's height and the rows of the window
unfoldable pub verify_live_backbone_window :
    Bytes → (ℤ → ℤ → List CanonicalRow) → BackboneTip → ℤ → Result WindowFault (Unit {0})
unfolding verify_live_backbone_window_rows live_backbone_window_start_height
verify_live_backbone_window current_hash load target window_heights = do
  ensure (bytes_eq current_hash target.tip_hash) (target_hash_mismatch target.tip_height)
  let start = live_backbone_window_start_height target.tip_height window_heights
  verify_live_backbone_window_rows (load start target.tip_height) start target

pub record CoreViewRow : Type 0 where
  pub view_height : ℤ
  pub view_hash : Bytes
  pub view_header : Header

pub data RepairPlan : Type 0 where
  no_hash_conflict : RepairPlan
  replace_from : ℕ → RepairPlan

-- `RepairPlanError`: the first divergence, the first conflict, and the ends of the view
pub data RepairPlanError : Type 0 where
  no_matching_anchor : ℤ → ℤ → ℤ → ℤ → RepairPlanError

unfoldable pub any_other_hash : Bytes → List CanonicalRow → Bool
any_other_hash hash [] = false
any_other_hash hash (r ∷ rs) = not (bytes_eq r.hash hash) || any_other_hash hash rs

unfoldable pub conflicts : List CanonicalRow → CoreViewRow → Bool
unfolding any_other_hash
conflicts rows core = any_other_hash core.view_hash (rows_at_height rows core.view_height)

unfoldable pub unique_match : CoreViewRow → List CanonicalRow → Bool
unfolding is_complete
unique_match core (r ∷ []) = bytes_eq r.hash core.view_hash && is_complete r
unique_match core _ = false

-- a unique, complete local row that is Core's
unfoldable pub is_anchor : List CanonicalRow → CoreViewRow → Bool
unfolding unique_match
is_anchor rows core = unique_match core (rows_at_height rows core.view_height)

-- `iter().position(p)`, counted from `i`
unfoldable pub position : (CoreViewRow → Bool) → ℕ → List CoreViewRow → Option ℕ
position p i [] = none
position p i (c ∷ cs) = let later = position p (i + 1) cs in if p c then some i else later

abbrev or_else : Option ℕ → Option ℕ → Option ℕ
or_else (some a) b = some a
or_else none b = b

-- `(0..n).rev().find(|i| p(&view[i]))`: the last index below `n`, counted from `i`, that passes
unfoldable pub last_position : (CoreViewRow → Bool) → ℕ → ℕ → List CoreViewRow → Option ℕ
last_position p i zero cs = none
last_position p i (suc n) [] = none
last_position p i (suc n) (c ∷ cs) =
    or_else (last_position p (i + 1) n cs) (if p c then some i else none)

-- the height of the first row among the first `n` that passes, or `default`
abbrev pub first_height : (CoreViewRow → Bool) → ℤ → ℕ → List CoreViewRow → ℤ
first_height p default zero cs = default
first_height p default (suc n) [] = default
first_height p default (suc n) (c ∷ cs) =
    let later = first_height p default n cs in if p c then c.view_height else later

abbrev pub height_at : ℤ → ℕ → List CoreViewRow → ℤ
height_at default i [] = default
height_at default zero (c ∷ cs) = c.view_height
height_at default (suc i) (c ∷ cs) = height_at default i cs

abbrev pub last_height : ℤ → List CoreViewRow → ℤ
last_height height [] = height
last_height height (c ∷ cs) = last_height c.view_height cs

-- the plan for a conflict at `conflict`; `lowest` is the height of the view's first row
unfoldable pub plan_conflict :
    ℤ → List CoreViewRow → List CanonicalRow → ℕ → Option ℕ → Result RepairPlanError RepairPlan
unfolding is_anchor
plan_conflict lowest view rows conflict (some anchor) = ok (replace_from (anchor + 1))
plan_conflict lowest view rows conflict none = err (
    no_matching_anchor (first_height (λ core. not (is_anchor rows core)) lowest (suc conflict) view)
      (height_at lowest conflict view) lowest (last_height lowest view))

unfoldable pub plan_from :
    List CoreViewRow → List CanonicalRow → Option ℕ → Result RepairPlanError RepairPlan
unfolding plan_conflict last_position is_anchor
plan_from view rows none = ok no_hash_conflict
plan_from view rows (some conflict) =
    let lowest = height_at (pos 0) 0 view in
    plan_conflict lowest view rows conflict (last_position (is_anchor rows) 0 conflict view)

unfoldable pub plan_repair :
    List CoreViewRow → List CanonicalRow → Result RepairPlanError RepairPlan
unfolding plan_from position conflicts
plan_repair view rows = plan_from view rows (position (conflicts rows) 0 view)

-- the row that extends the prefix by one height, if there is one
unfoldable pub next_row : ℤ → Option Bytes → List CanonicalRow → Option Bytes
unfolding is_complete
next_row h anchor [] = none
next_row h anchor (r ∷ []) =
    if is_complete r && (eqb_ℤ h (pos 0) || has_hash anchor r.prev_hash) then some r.hash else none
next_row h anchor (r ∷ r' ∷ rs) = none

unfoldable pub extended : (Option Bytes → ℤ) → ℤ → Option Bytes → ℤ
extended later h none = h
extended later h (some hash) = later (some hash)

-- The loop that extends the prefix. `left` heights remain before `checked_add` fails.
unfoldable pub extend_prefix : (ℤ → List CanonicalRow) → ℕ → ℤ → Option Bytes → ℤ
unfolding extended next_row
extend_prefix load zero h anchor = h
extend_prefix load (suc left) h anchor =
    let next = h +ℤ pos 1 in
    extended (extend_prefix load left next) h (next_row next anchor (load next))

unfoldable pub anchored : List CanonicalRow → Option Bytes
unfolding is_complete
anchored (r ∷ []) = if is_complete r then some r.hash else none
anchored _ = none

unfoldable pub extend_from : (ℤ → List CanonicalRow) → ℤ → Option Bytes → ℤ
unfolding extend_prefix
extend_from load h none = h
extend_from load h (some hash) = extend_prefix load (pos_part (pos (2 ^ 31 - 1) -ℤ h)) h (some hash)

-- `advance_contiguous_complete_prefix`: the new cursor, on the canonical rows of each height
unfoldable pub advance_contiguous_complete_prefix : (ℤ → List CanonicalRow) → ℤ → ℤ
unfolding extend_from anchored extend_prefix
advance_contiguous_complete_prefix load h =
    if leb_ℤ (pos 0) h
    then extend_from load h (anchored (load h))
    else extend_prefix load (pos_part (pos (2 ^ 31 - 1) -ℤ h)) h none
