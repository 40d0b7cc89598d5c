-- ===== src/Catalogue/Resolve.antt =====
-- What a catalogued parent can be classified as.
use mathlib.Core.Path.{subst}
use merge_mining_monitor.Base.{
  Bool, Bool-cases, List, Option, Result, String, and-true, ap, arith, ensure-then, err, false,
  if◌then◌else◌, inl, inr, none, ok, refl, some, sym, true, ◌&&◌, ◌≡◌,
}
use merge_mining_monitor.Base.Int.{ℤ}
use merge_mining_monitor.Base.Text.{same_text, same_text_iff}
use merge_mining_monitor.Base.Words.{Bytes}
use merge_mining_monitor.Bitcoin.{Header, Library}
use merge_mining_monitor.Catalogue.{
  InvalidBlock, ResolveFault, catalogue_classification, contradicts_mtp, has_height, has_reason,
  is_invalid, is_placed, live_disagrees, lookup_block, resolve_parent_classification,
  time_below_mtp, with_catalogue, with_entry,
}
use merge_mining_monitor.Classifier.{
  ParentClassification, ParentKind, canonical, invalid_block, near, stale, unknown_kind,
}

-- The verdict that the catalogue's entry calls for.
pub record IsCatalogued (catalogue : InvalidBlock) (v : ParentClassification) : Type 0 where
  pub kind : v.kind ≡ invalid_block
  pub height : v.height ≡ some catalogue.height
  pub reason : v.rejection_reason ≡ some catalogue.rejection_reason

verdict_injective :
    {a b : ParentClassification}
    → ◌≡◌ {A = Result ResolveFault ParentClassification} (ok a) (ok b)
    → a ≡ b
verdict_injective e = cc

has_height-true : (o : Option ℤ) (h : ℤ) → has_height o h ≡ true → o ≡ some h
has_height-true none h e = cc
has_height-true (some z) h e = ground arith

has_reason-true : (o : Option String) (r : String) → has_reason o r ≡ true → o ≡ some r
has_reason-true none r e = cc
has_reason-true (some s) r e = ap some ((same_text_iff s r).0 e)

is_invalid-true : (k : ParentKind) → is_invalid k ≡ true → k ≡ invalid_block
is_invalid-true invalid_block e = refl
is_invalid-true canonical e = cc
is_invalid-true stale e = cc
is_invalid-true near e = cc
is_invalid-true unknown_kind e = cc

module _ (header : Header) (catalogue : InvalidBlock) (v : ParentClassification) where
  joined :
      (live : Option ParentClassification)
      → with_catalogue header catalogue live ≡ ok v
      → IsCatalogued catalogue v
  unfolding with_catalogue
  joined none h =
      subst (IsCatalogued catalogue) (verdict_injective h)
        (record { kind = refl; height = refl; reason = refl })
  joined (some live) h = elim (Bool-cases (is_invalid live.kind)) [
    | inl b ↦
        let (agree, done) =
          ensure-then
            (has_height live.height catalogue.height
              && has_reason live.rejection_reason catalogue.rejection_reason)
            live_disagrees _ (rw b at h) in
        let (height, reason) = and-true (has_height live.height catalogue.height) _ agree in
        subst (IsCatalogued catalogue) (verdict_injective done) (record {
          kind = is_invalid-true live.kind b;
          height = has_height-true _ _ height;
          reason = has_reason-true _ _ reason;
        })
    | inr b ↦
        not_refused (same_text catalogue.rejection_reason time_below_mtp && is_placed live.kind)
          (rw b at h)
  ]
    where
      not_refused :
          (refuse : Bool)
          → (if refuse then err contradicts_mtp else ok (catalogue_classification header catalogue))
            ≡ ok v
          → IsCatalogued catalogue v
      not_refused true k = cc
      not_refused false k =
          subst (IsCatalogued catalogue) (verdict_injective k)
            (record { kind = refl; height = refl; reason = refl })

  -- A parent whose hash is in the catalogue is classified as an invalid block with the catalogue's
  -- height and reason, whatever Core's live verdict, or the classification fails.
  pub resolve_parent_classification_sound :
      (lib : Library) (registry : List (Bytes × InvalidBlock)) (live : Option ParentClassification)
      → lookup_block registry (lib.block_hash header) ≡ some catalogue
      → resolve_parent_classification lib registry header live ≡ ok v
      → IsCatalogued catalogue v
  unfolding resolve_parent_classification with_entry
  resolve_parent_classification_sound lib registry live entry h =
      joined live (subst (λ o. with_entry header live o ≡ ok v) entry h)

placed_not_invalid : (k : ParentKind) → is_placed k ≡ true → is_invalid k ≡ false
placed_not_invalid canonical e = refl
placed_not_invalid stale e = refl
placed_not_invalid invalid_block e = cc
placed_not_invalid near e = cc
placed_not_invalid unknown_kind e = cc

refused :
    (header : Header) (catalogue : InvalidBlock) (live : ParentClassification)
    → catalogue.rejection_reason ≡ time_below_mtp
    → is_placed live.kind ≡ true
    → with_catalogue header catalogue (some live) ≡ err contradicts_mtp
unfolding with_catalogue
refused header catalogue live reason placed =
    rw (placed_not_invalid live.kind placed, (same_text_iff _ _).1 reason, placed) refl

-- A canonical or stale verdict of Core about a parent that the catalogue has for a time at or below
-- the median fails the classification.
pub resolve_parent_classification_closed :
    (lib : Library) (registry : List (Bytes × InvalidBlock)) (header : Header)
    (live : ParentClassification) (catalogue : InvalidBlock)
    → lookup_block registry (lib.block_hash header) ≡ some catalogue
    → catalogue.rejection_reason ≡ time_below_mtp
    → is_placed live.kind ≡ true
    → resolve_parent_classification lib registry header (some live) ≡ err contradicts_mtp
unfolding resolve_parent_classification with_entry
resolve_parent_classification_closed lib registry header live catalogue entry reason placed =
    subst (λ o. with_entry header (some live) o ≡ err contradicts_mtp) (sym entry)
      (refused header catalogue live reason placed)
