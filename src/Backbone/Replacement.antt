-- ===== src/Backbone/Replacement.antt =====
-- crates/mmm-producers/src/bitcoin_core_backbone/reorg.rs: a plan on a captured view.
use mathlib.Core.List.{append_assoc}
use mathlib.Core.Path.{subst}
use merge_mining_monitor.Backbone.{
  BackboneTip, CanonicalRow, CoreViewRow, RepairPlan, RepairPlanError, plan_repair, replace_from,
}
use merge_mining_monitor.Backbone.Plan.{PlanOf, agrees, outside_view, plan_repair-PlanOf, replaces}
use merge_mining_monitor.Backbone.Repair.{BackboneSource, capture_core_view_until}
use merge_mining_monitor.Backbone.Rows.{Differs, SoleRow}
use merge_mining_monitor.Backbone.View.{
  IsCoreView, capture_core_view_until-Captured, view_next, view_tip,
}
use merge_mining_monitor.Base.{
  All, Bool, List, Result, [], ap, arith, drop, inl, inr, length, ok, refl, suc, take, ℕ, ◌++◌, ◌+◌,
  ◌∙◌, ◌∷◌, ◌≡◌, ◌⊎◌,
}
use merge_mining_monitor.Base.Int.{ℤ, ◌≤ℤ◌}
use merge_mining_monitor.Bitcoin.{Library}
use merge_mining_monitor.Follow.Tick.{kept}
use merge_mining_monitor.Poller.{captured}

-- The rows of a view from `first` on replace the local rows above an anchor.
pub record Replaces (lib : Library) (target : BackboneTip) (view : List CoreViewRow)
    (rows : List CanonicalRow) (first : ℕ) : Type 0 where
  pub anchor : CoreViewRow
  pub local : CanonicalRow
  pub suffix_chain : IsCoreView lib target (anchor ∷ drop first view)
  pub only_local : SoleRow rows anchor.view_height local
  pub local_hash : local.hash ≡ anchor.view_hash
  pub local_complete : local.coinbase_status ≡ "complete"
  pub kept_agree : All (λ core. ¬ Differs rows core) (take first view)

IsCoreView-tail :
    {lib : Library} {target : BackboneTip} {x : CoreViewRow} {l : List CoreViewRow}
    → IsCoreView lib target (x ∷ l)
    → (l ≡ []) ⊎ IsCoreView lib target l
IsCoreView-tail (view_tip r e1 e2 e3) = inl refl
IsCoreView-tail (view_next r r' rs e1 e2 e3 core) = inr core

not_empty {ℓ κ} :
    {A : Type ℓ} {B : Type κ} (xs : List A) (a : A) (ys : List A) → xs ++ a ∷ ys ≡ [] → B
not_empty [] a ys e = cc
not_empty (x ∷ xs) a ys e = cc

IsCoreView-suffix :
    {lib : Library} {target : BackboneTip} (xs : List CoreViewRow) (a : CoreViewRow)
    (ys : List CoreViewRow)
    → IsCoreView lib target (xs ++ a ∷ ys)
    → IsCoreView lib target (a ∷ ys)
IsCoreView-suffix [] a ys core = core
IsCoreView-suffix (x ∷ xs) a ys core = elim (IsCoreView-tail core) [
  | inl empty ↦ not_empty xs a ys empty
  | inr rest ↦ IsCoreView-suffix xs a ys rest
]

drop-middle :
    (xs : List CoreViewRow) (a : CoreViewRow) (ys : List CoreViewRow)
    → drop (suc (length xs)) (xs ++ a ∷ ys) ≡ ys
drop-middle [] a ys = refl
drop-middle (x ∷ xs) a ys = drop-middle xs a ys

take-middle :
    (xs : List CoreViewRow) (a : CoreViewRow) (ys : List CoreViewRow)
    → take (suc (length xs)) (xs ++ a ∷ ys) ≡ xs ++ a ∷ []
take-middle [] a ys = refl
take-middle (x ∷ xs) a ys = ap (λ l. x ∷ l) (take-middle xs a ys)

All-middle {κ} :
    (P : CoreViewRow → Type κ) (xs : List CoreViewRow) (a : CoreViewRow) (ys : List CoreViewRow)
    → All P (xs ++ a ∷ ys)
    → All P (xs ++ a ∷ [])
All-middle P [] a ys h = (h.0, tt)
All-middle P (x ∷ xs) a ys h = (h.0, All-middle P xs a ys h.1)

module _ (lib : Library) (target : BackboneTip) (view : List CoreViewRow)
    (rows : List CanonicalRow) where
  PlanOf-Replaces :
      {plan : Result RepairPlanError RepairPlan} {first : ℕ}
      → IsCoreView lib target view
      → PlanOf view rows plan
      → plan ≡ ok (replace_from first)
      → Replaces lib target view rows first
  PlanOf-Replaces core (agrees all) e = cc
  PlanOf-Replaces core (outside_view before behind conflict parts h all none_at) e = cc
  PlanOf-Replaces {first = first} core
        (replaces kept between behind anchor conflict parts h all passes_anchor none_at) e =
      let rest = between ++ conflict ∷ behind in
      let whole : view ≡ kept ++ anchor ∷ rest = parts ∙ append_assoc kept (anchor ∷ between) _ in
      let reached : length kept + 1 ≡ first = cc in
      let index : suc (length kept) ≡ first = omega (arith, reached) in
      subst (Replaces lib target view rows) index (record {
        anchor = anchor;
        local = passes_anchor.local;
        suffix_chain =
            rw (whole, drop-middle kept anchor rest)
              (IsCoreView-suffix kept anchor rest (rw (← whole) core));
        only_local = passes_anchor.sole;
        local_hash = passes_anchor.same_hash;
        local_complete = passes_anchor.done;
        kept_agree =
            rw (whole, take-middle kept anchor rest)
              (All-middle (λ c. ¬ Differs rows c) kept anchor between all);
      })

  -- A plan that replaces rows, made on a view that was captured from Core, keeps the local chain whole:
  -- the rows it puts in place are Core's headers up to the target, linked to an anchor whose only local
  -- row is complete and has the anchor's hash, and no row up to the anchor differs from Core's.
  pub plan_repair-Replaces :
      (source : BackboneSource) (stop : CoreViewRow → Bool) (start : ℤ) (first : ℕ)
      → start ≤ℤ target.tip_height
      → capture_core_view_until lib source stop target start ≡ ok view
      → plan_repair view rows ≡ ok (replace_from first)
      → Replaces lib target view rows first
  plan_repair-Replaces source stop start first below captured planned =
      let view_of =
        capture_core_view_until-Captured lib source stop target start view below captured in
      PlanOf-Replaces (rw view_of.parts view_of.chain_of_core) (plan_repair-PlanOf view rows)
        planned
