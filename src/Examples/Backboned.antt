-- ===== src/Examples/Backboned.antt =====
-- A window of two rows, and a plan that replaces a row above an anchor.
use mathlib.Core.Path.{subst}
use merge_mining_monitor.Backbone.{
  BackboneTip, CanonicalRow, CoreViewRow, plan_repair, replace_from, rows_at_height,
  verify_live_backbone_window,
}
use merge_mining_monitor.Backbone.Plan.{PlanOf, plan_repair-PlanOf}
use merge_mining_monitor.Backbone.Repair.{BackboneSource, capture_core_view_until}
use merge_mining_monitor.Backbone.Replacement.{Replaces, plan_repair-Replaces}
use merge_mining_monitor.Backbone.Window.{IsLiveWindow, verify_live_backbone_window_iff}
use merge_mining_monitor.Base.{
  List, [], arith, bytes_eq, false, if◌then◌else◌, ok, refl, ℕ, ◌↔◌, ◌∷◌, ◌≡◌,
}
use merge_mining_monitor.Base.Int.{pos, ℤ, ◌+ℤ◌, ◌-ℤ◌}
use merge_mining_monitor.Base.Ranges.{heights_between}
use merge_mining_monitor.Base.Words.{Bytes}
use merge_mining_monitor.Bitcoin.{Header, Library}
use merge_mining_monitor.Examples.Toy.{toy}

abbrev pub row_of : ℤ → ℕ → ℕ → CanonicalRow
row_of height hash prev = record {
  height = height;
  hash = hash ∷ [];
  prev_hash = prev ∷ [];
  coinbase_status = "complete";
}

abbrev pub stored : List CanonicalRow
stored = row_of (pos 8) 80 70 ∷ row_of (pos 9) 90 80 ∷ []

abbrev core_tip : BackboneTip
core_tip = record { tip_height = pos 9; tip_hash = 90 ∷ [] }

stored_verifies : verify_live_backbone_window (90 ∷ []) (λ from to. stored) core_tip (pos 2) ≡ ok tt
unfolding verify_live_backbone_window bytes_eq heights_between ◌+ℤ◌ ◌-ℤ◌
stored_verifies = refl

verify_live_backbone_window_iff_example :
    (verify_live_backbone_window (90 ∷ []) (λ from to. stored) core_tip (pos 2) ≡ ok tt)
    ↔ ((◌≡◌ {A = Bytes} (90 ∷ []) (90 ∷ [])) × IsLiveWindow stored (pos 8) core_tip)
verify_live_backbone_window_iff_example =
    verify_live_backbone_window_iff (90 ∷ []) (90 ∷ []) (λ from to. stored) 9 2 (omega arith)
      (omega arith) (omega arith)

abbrev viewed : ℤ → ℕ → ℕ → CoreViewRow
viewed height hash prev = record {
  view_height = height;
  view_hash = hash ∷ [];
  view_header = record {
    version = pos 1;
    prev_blockhash = prev ∷ [];
    merkle_root = [];
    time = 0;
    bits = 0;
    nonce = hash;
  };
}

abbrev pub core_view : List CoreViewRow
core_view = viewed (pos 7) 70 60 ∷ viewed (pos 8) 80 70 ∷ viewed (pos 9) 91 80 ∷ []

forked_plan : plan_repair core_view stored ≡ ok (replace_from 2)
unfolding plan_repair bytes_eq rows_at_height
forked_plan = refl

plan_repair-PlanOf_example : PlanOf core_view stored (ok (replace_from 2))
plan_repair-PlanOf_example =
    subst (PlanOf core_view stored) forked_plan (plan_repair-PlanOf core_view stored)

abbrev pub forked_tip : BackboneTip
forked_tip = record { tip_height = pos 9; tip_hash = 91 ∷ [] }

-- the source of a chain whose headers carry their hash as the nonce
abbrev pub nonce_lib : Library
nonce_lib = record toy { block_hash = λ header. header.nonce ∷ [] }

abbrev header_named : Bytes → Header
header_named hash =
    if bytes_eq hash (91 ∷ [])
    then (viewed (pos 9) 91 80).view_header
    else if bytes_eq hash (80 ∷ [])
    then (viewed (pos 8) 80 70).view_header
    else (viewed (pos 7) 70 60).view_header

abbrev pub forked_source : BackboneSource
forked_source = record {
  core_tip = ok forked_tip;
  core_hash = λ h. ok (91 ∷ []);
  core_header = λ hash. ok (header_named hash);
}

forked_capture :
    capture_core_view_until nonce_lib forked_source (λ row. false) forked_tip (pos 7) ≡ ok core_view
unfolding capture_core_view_until bytes_eq ◌+ℤ◌ ◌-ℤ◌
forked_capture = refl

plan_repair-Replaces_example : Replaces nonce_lib forked_tip core_view stored 2
plan_repair-Replaces_example =
    plan_repair-Replaces nonce_lib forked_tip core_view stored forked_source (λ row. false) (pos 7)
      2 (omega arith) forked_capture forked_plan
