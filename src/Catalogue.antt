-- ===== src/Catalogue.antt =====
-- crates/mmm-capture/src/invalid_blocks.rs and `resolve_parent_classification` of
-- crates/mmm-read-model/src/classify.rs: the pinned catalogue of invalid blocks, and how a live verdict
-- is joined with it. The entries of the pinned file are an argument.
pub mod Resolve
use merge_mining_monitor.Base.{
  Bool, List, Option, Result, String, [], bytes_eq, ensure, err, false, if◌then◌else◌, length, none,
  ok, some, true, ◌&&◌, ◌==◌, ◌>>=◌, ◌>>◌, ◌∷◌,
}
use merge_mining_monitor.Base.Int.{eqb_ℤ, ℤ}
use merge_mining_monitor.Base.Text.{same_text}
use merge_mining_monitor.Base.Words.{Bytes}
use merge_mining_monitor.Bitcoin.{Header, Library}
use merge_mining_monitor.Classifier.{
  ParentClassification, ParentKind, canonical, invalid_block, invalid_block_catalog,
  invalid_block_verdict, near, stale, unknown, unknown_kind,
}

pub record InvalidBlock : Type 0 where
  pub height : ℤ
  pub rejection_reason : String

-- `TIME_BELOW_MTP`
abbrev pub time_below_mtp : String
time_below_mtp = "time_below_mtp"

-- the two refusals
pub data ResolveFault : Type 0 where
  live_disagrees contradicts_mtp : ResolveFault

unfoldable pub entry_of : List (Bytes × InvalidBlock) → Bytes → Option InvalidBlock
unfolding bytes_eq
entry_of [] hash = none
entry_of ((key, entry) ∷ entries) hash =
    let rest = entry_of entries hash in if bytes_eq key hash then some entry else rest

-- a hash that has not 32 bytes is in no catalogue
unfoldable pub lookup_block : List (Bytes × InvalidBlock) → Bytes → Option InvalidBlock
unfolding entry_of
lookup_block registry hash = if length hash == 32 then entry_of registry hash else none

abbrev pub is_invalid : ParentKind → Bool
is_invalid invalid_block = true
is_invalid canonical = false
is_invalid stale = false
is_invalid near = false
is_invalid unknown_kind = false

abbrev pub is_placed : ParentKind → Bool
is_placed canonical = true
is_placed stale = true
is_placed invalid_block = false
is_placed near = false
is_placed unknown_kind = false

abbrev pub has_height : Option ℤ → ℤ → Bool
has_height none height = false
has_height (some h) height = eqb_ℤ h height

abbrev pub has_reason : Option String → String → Bool
has_reason none reason = false
has_reason (some r) reason = same_text r reason

abbrev pub catalogue_classification : Header → InvalidBlock → ParentClassification
catalogue_classification header catalogue =
    invalid_block_verdict header catalogue.height invalid_block_catalog none
      catalogue.rejection_reason

unfoldable pub with_catalogue :
    Header → InvalidBlock → Option ParentClassification → Result ResolveFault ParentClassification
unfolding same_text
with_catalogue header catalogue none = ok (catalogue_classification header catalogue)
with_catalogue header catalogue (some live) =
    if is_invalid live.kind
    then (do
      ensure
          (has_height live.height catalogue.height
            && has_reason live.rejection_reason catalogue.rejection_reason)
          live_disagrees
      ok live)
    else if same_text catalogue.rejection_reason time_below_mtp && is_placed live.kind
    then err contradicts_mtp
    else ok (catalogue_classification header catalogue)

abbrev pub live_or_unknown : Header → Option ParentClassification → ParentClassification
live_or_unknown header none = unknown header
live_or_unknown header (some live) = live

unfoldable pub with_entry :
    Header
    → Option ParentClassification
    → Option InvalidBlock
    → Result ResolveFault ParentClassification
unfolding with_catalogue
with_entry header live none = ok (live_or_unknown header live)
with_entry header live (some catalogue) = with_catalogue header catalogue live

unfoldable pub resolve_parent_classification :
    Library
    → List (Bytes × InvalidBlock)
    → Header
    → Option ParentClassification
    → Result ResolveFault ParentClassification
unfolding lookup_block with_entry
resolve_parent_classification lib registry header live =
    with_entry header live (lookup_block registry (lib.block_hash header))
