-- ===== src/Auxpow/Decode/Tags.antt =====
-- Coinbase tags: what `extract_coinbase_tag` can return.
use mathlib.Core.Path.{subst}
use merge_mining_monitor.Auxpow.Decode.{
  collect_tags, extract_coinbase_tag, flush_run, is_printable, join, join_some, trim, trim_start,
}
use merge_mining_monitor.Base.{
  All, All-append, All-reverse, Bool-cases, List, Option, [], arith, inl, inr, leb, leb→le, length,
  length-append, reverse, some, ℕ, ◌++◌, ◌==◌, ◌∷◌, ◌≡◌, ◌≤◌,
}
use merge_mining_monitor.Base.Words.{Bytes}

abbrev pub IsPrintable : ℕ → Type 0
IsPrintable byte = (0x20 ≤ byte) × (byte ≤ 0x7e)

abbrev Printable : Bytes → Type 0
Printable run = All IsPrintable run

trim_start-Printable : (run : Bytes) → Printable run → Printable (trim_start run)
unfolding trim_start
trim_start-Printable [] h = tt
trim_start-Printable (c ∷ cs) h = elim (Bool-cases (c == 0x20)) [
  | inl b ↦ rw b (trim_start-Printable cs h.1)
  | inr b ↦ rw b h
]

trim-Printable : (run : Bytes) → Printable run → Printable (trim run)
unfolding trim
trim-Printable run h = All-reverse IsPrintable (trim_start (reverse (trim_start run))) (
    trim_start-Printable (reverse (trim_start run))
      (All-reverse IsPrintable (trim_start run) (trim_start-Printable run h)))

-- a tag that is kept: printable, and at least four characters long
abbrev IsTag : Bytes → Type 0
IsTag tag = Printable tag × (4 ≤ length tag)

flush_run-IsTag :
    (run : Bytes) (tags : List Bytes)
    → Printable run
    → All IsTag tags
    → All IsTag (flush_run run tags)
unfolding flush_run
flush_run-IsTag run tags h t = elim (Bool-cases (leb 4 (length (trim run)))) [
  | inl b ↦
      rw b (All-append IsTag tags (trim run ∷ []) t ((trim-Printable run h, leb→le _ _ b), tt))
  | inr b ↦ rw b t
]

collect_tags-IsTag :
    (script run : Bytes) (tags : List Bytes)
    → Printable run
    → All IsTag tags
    → All IsTag (collect_tags script run tags)
unfolding collect_tags
collect_tags-IsTag [] run tags h t = flush_run-IsTag run tags h t
collect_tags-IsTag (byte ∷ script) run tags h t = elim (Bool-cases (is_printable byte)) [
  | inl b ↦
      let printable : IsPrintable byte = ground arith in
      rw b (
        collect_tags-IsTag script (run ++ byte ∷ []) tags
          (All-append IsPrintable run (byte ∷ []) h (printable, tt)) t)
  | inr b ↦
      rw b (collect_tags-IsTag script [] (flush_run run tags) tt (flush_run-IsTag run tags h t))
]

join-IsTag :
    (tag : Bytes) (tags : List Bytes) → IsTag tag → All IsTag tags → IsTag (join (tag ∷ tags))
unfolding join
join-IsTag tag [] h t = h
join-IsTag tag (next ∷ tags) h t =
    let rest = join-IsTag next tags t.0 t.1 in
    (
      All-append IsPrintable tag (0x20 ∷ join (next ∷ tags)) h.0
          ((omega arith, omega arith), rest.0),
      omega (arith, length-append tag (0x20 ∷ join (next ∷ tags)), h.1),
    )

tag_injective : {a b : Bytes} → ◌≡◌ {A = Option Bytes} (some a) (some b) → a ≡ b
tag_injective e = cc

join_some-IsTag :
    (tags : List Bytes) (tag : Bytes) → All IsTag tags → join_some tags ≡ some tag → IsTag tag
unfolding join_some
join_some-IsTag [] tag t h = cc
join_some-IsTag (first ∷ tags) tag t h =
    subst IsTag (tag_injective h) (join-IsTag first tags t.0 t.1)

-- A coinbase tag that is returned holds only printable characters of ASCII, from the space to the
-- tilde, and at least four of them, whatever bytes the script has.
pub extract_coinbase_tag_sound :
    (script tag : Bytes)
    → extract_coinbase_tag script ≡ some tag
    → All IsPrintable tag × (4 ≤ length tag)
unfolding extract_coinbase_tag
extract_coinbase_tag_sound script tag h =
    join_some-IsTag (collect_tags script [] []) tag (collect_tags-IsTag script [] [] tt tt) h
