-- ===== src/Examples/Catalogued.antt =====
-- A parent of the catalogue.
use merge_mining_monitor.Base.{List, [], none, ok, refl, some, ◌∷◌, ◌≡◌}
use merge_mining_monitor.Base.Int.{pos}
use merge_mining_monitor.Base.Words.{Bytes, from_le, to_le}
use merge_mining_monitor.Bitcoin.{Header}
use merge_mining_monitor.Catalogue.{
  InvalidBlock, catalogue_classification, lookup_block, resolve_parent_classification,
  time_below_mtp,
}
use merge_mining_monitor.Catalogue.Resolve.{IsCatalogued, resolve_parent_classification_sound}
use merge_mining_monitor.Classifier.{ParentClassification, classify_core_canonical_header}
use merge_mining_monitor.Examples.Toy.{child_bytes, header_of, toy}

abbrev pinned : InvalidBlock
pinned = record { height = pos 380_992; rejection_reason = time_below_mtp }

abbrev registry : List (Bytes × InvalidBlock)
registry = (to_le 32 7, pinned) ∷ []

abbrev pinned_header : Header
pinned_header = header_of child_bytes

in_registry : lookup_block registry (toy.block_hash pinned_header) ≡ some pinned
unfolding lookup_block from_le to_le
in_registry = refl

pinned_resolves :
    resolve_parent_classification toy registry pinned_header none
    ≡ ok (catalogue_classification pinned_header pinned)
unfolding resolve_parent_classification from_le to_le
pinned_resolves = refl

resolve_parent_classification_sound_example :
    IsCatalogued pinned (catalogue_classification pinned_header pinned)
resolve_parent_classification_sound_example =
    resolve_parent_classification_sound pinned_header pinned
      (catalogue_classification pinned_header pinned) toy registry none in_registry pinned_resolves

abbrev live_canonical : ParentClassification
live_canonical = classify_core_canonical_header pinned_header (pos 380_992) none
