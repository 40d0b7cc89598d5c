-- ===== src/Classifier/Stale.antt =====
-- What an inferred stale verdict rests on.
use mathlib.Core.Path.{subst}
use merge_mining_monitor.Base.{
  ==_iff, >>=-eq-ok, Bool, Bool-cases, List, Option, Result, ap, err, false, if◌then◌else◌, inl,
  inr, length, map, none, ok, refl, some, true, ℕ, ◌==◌, ◌>>=◌, ◌∙◌, ◌≡◌, ◌≤◌,
}
use merge_mining_monitor.Base.Int.{negsuc, pos, ℤ, ◌+ℤ◌}
use merge_mining_monitor.Base.Words.{Bytes}
use merge_mining_monitor.Bitcoin.{Header, Library}
use merge_mining_monitor.Classifier.{
  BlockKind, ClassifiedHeader, ClassifyFault, Competitor, CoreHeaderSource, HeightSource, MtpCheck,
  ParentClassification, ParentKind, RpcFault, ancestor_missing, competitor_absent, competitor_found,
  competitor_unavailable, core_absence_unknown, has_no_block, incomplete_unknown,
  inferred_height_source, is_not_found, mtp_unavailable, near, passes, stale, tolerate, unknown,
  unknown_kind,
}
use merge_mining_monitor.Classifier.Core.{
  beside_competitor, classify_inferred_stale, classify_inferred_stale_with_competitor,
  competitor_header, fetch_competitor, inferred_stale, median_time_past_passes, mtp_verdict,
}
use merge_mining_monitor.Classifier.Median.{Linked, median_time_past_passes_sound, time_of}
use merge_mining_monitor.Classifier.Median.Order.{count_before}
use merge_mining_monitor.Nbits.{checked_i32}

-- Core's block at `height`, by the answers about its hash and its header.
pub record IsCoreBlock (source : CoreHeaderSource) (height : ℤ) (competitor : ClassifiedHeader)
    : Type 0 where
  pub number : ℕ
  pub at_height : height ≡ pos number
  pub hash : Bytes
  pub hash_answer : source.get_block_hash number ≡ ok hash
  pub header_answer : source.get_header hash (pos number) ≡ ok competitor

-- A header whose sibling in Core's chain has its bits, and whose time is past the median of its
-- eleven ancestors.
pub record IsStaleSibling (lib : Library) (source : CoreHeaderSource) (header : Header)
    (prev_height : ℤ) (v : ParentClassification) : Type 0 where
  pub height : ℤ
  pub next : checked_i32 (prev_height +ℤ pos 1) ≡ some height
  pub placed : v.height ≡ some height
  pub competitor : ClassifiedHeader
  pub kept : v.canonical_competitor_header ≡ some competitor
  pub block : IsCoreBlock source height competitor
  pub same_bits : header.bits ≡ competitor.header.bits
  pub ancestry : List Header
  pub eleven : length ancestry ≡ 11
  pub linked : Linked lib source header.prev_blockhash ancestry
  pub late : 6 ≤ count_before header.time (map time_of ancestry)
  pub not_attested : v.core_absence_attested ≡ false

found_injective :
    {a b : ClassifiedHeader}
    → ◌≡◌ {A = Result ClassifyFault Competitor} (ok (competitor_found a)) (ok (competitor_found b))
    → a ≡ b
found_injective e = cc

not_tolerated :
    (fail b : Bool) (fault : RpcFault) (c : ClassifiedHeader)
    → ¬ (
        (if b then ok competitor_absent else tolerate fail fault competitor_unavailable)
        ≡ ok (competitor_found c))
not_tolerated fail true fault c h = cc
not_tolerated true false fault c h = cc
not_tolerated false false fault c h = cc

module _ (source : CoreHeaderSource) (fail : Bool) (c : ClassifiedHeader) where
  header_found :
      (hash : Bytes) (n : ℕ) (answer : Result RpcFault ClassifiedHeader)
      → source.get_header hash (pos n) ≡ answer
      → (elim answer [
        | ok header ↦ ok (competitor_found header)
        | err fault ↦
            if is_not_found fault
            then ok competitor_absent
            else tolerate fail fault competitor_unavailable
      ])
        ≡ ok (competitor_found c)
      → source.get_header hash (pos n) ≡ ok c
  header_found hash n (ok header) e h = e ∙ ap ok (found_injective h)
  header_found hash n (err fault) e h = absurd (not_tolerated fail (is_not_found fault) fault c h)

  hash_found :
      (lib : Library) (n : ℕ) (answer : Result RpcFault Bytes)
      → source.get_block_hash n ≡ answer
      → (elim answer [
        | ok hash ↦ competitor_header lib source hash (pos n) fail
        | err fault ↦
            if has_no_block fault
            then ok competitor_absent
            else tolerate fail fault competitor_unavailable
      ])
        ≡ ok (competitor_found c)
      → IsCoreBlock source (pos n) c
  unfolding competitor_header
  hash_found lib n (ok hash) e h = record {
    number = n;
    at_height = refl;
    hash = hash;
    hash_answer = e;
    header_answer = header_found hash n (source.get_header hash (pos n)) refl h;
  }
  hash_found lib n (err fault) e h = absurd (not_tolerated fail (has_no_block fault) fault c h)

  pub fetch_competitor_sound :
      (lib : Library) (height : ℤ)
      → fetch_competitor lib source height fail ≡ ok (competitor_found c)
      → IsCoreBlock source height c
  unfolding fetch_competitor
  fetch_competitor_sound lib (negsuc n) h = cc
  fetch_competitor_sound lib (pos n) h = hash_found lib n (source.get_block_hash n) refl h

kind_or_near : Result ClassifyFault ParentClassification → ParentKind
kind_or_near (ok verdict) = verdict.kind
kind_or_near (err fault) = near

module _ (lib : Library) (source : CoreHeaderSource) (header : Header) (prev_height : ℤ)
    (predecessor : Option ClassifiedHeader) (prev_kind : BlockKind) (fail : Bool)
    (v : ParentClassification) (is_stale : v.kind ≡ stale) where
  from_sibling :
      (height : ℤ) (competitor : ClassifiedHeader)
      → checked_i32 (prev_height +ℤ pos 1) ≡ some height
      → IsCoreBlock source height competitor
      → header.bits ≡ competitor.header.bits
      → median_time_past_passes lib source header fail ≡ ok (passes true)
      → (height_source : HeightSource)
      → inferred_stale header height predecessor height_source competitor ≡ v
      → IsStaleSibling lib source header prev_height v
  from_sibling height competitor next block same_bits mtp height_source e =
      let (ancestry, eleven, linked, late) =
        median_time_past_passes_sound lib source fail header true mtp in
      subst (IsStaleSibling lib source header prev_height) e (record {
        height = height;
        next = next;
        placed = refl;
        competitor = competitor;
        kept = refl;
        block = block;
        same_bits = same_bits;
        ancestry = ancestry;
        eleven = eleven;
        linked = linked;
        late = late.0 refl;
        not_attested = refl;
      })

  verdict_injective :
      {a b : ParentClassification}
      → ◌≡◌ {A = Result ClassifyFault ParentClassification} (ok a) (ok b)
      → a ≡ b
  verdict_injective e = cc

  unknown_not_stale :
      (u : ParentClassification)
      → u.kind ≡ unknown_kind
      → ¬ (◌≡◌ {A = Result ClassifyFault ParentClassification} (ok u) (ok v))
  unknown_not_stale u e h = cc (ap (λ x. x.kind) (verdict_injective h))

  by_check :
      (height : ℤ) (competitor : ClassifiedHeader) (check : MtpCheck)
      → checked_i32 (prev_height +ℤ pos 1) ≡ some height
      → IsCoreBlock source height competitor
      → (header.bits == competitor.header.bits) ≡ true
      → median_time_past_passes lib source header fail ≡ ok check
      → mtp_verdict lib source header height predecessor prev_kind competitor check ≡ ok v
      → IsStaleSibling lib source header prev_height v
  unfolding classify_inferred_stale_with_competitor kind_or_near
  by_check height competitor (passes true) next block bits mtp h =
      let (height_source, _, done) =
        >>=-eq-ok (inferred_height_source prev_kind) _ (rw bits at h) in
      from_sibling height competitor next block ((==_iff _ _).0 bits) mtp height_source
        (verdict_injective done)
  by_check height competitor (passes false) next block bits mtp h =
      let (height_source, _, done) = >>=-eq-ok (inferred_height_source prev_kind) _ h in
      cc (ap (λ x. x.kind) (verdict_injective done))
  by_check height competitor ancestor_missing next block bits mtp h =
      absurd (unknown_not_stale (unknown header) refl h)
  by_check height competitor mtp_unavailable next block bits mtp h =
      absurd (unknown_not_stale (incomplete_unknown header) refl h)

  by_competitor :
      (height : ℤ) (competitor : Competitor)
      → checked_i32 (prev_height +ℤ pos 1) ≡ some height
      → fetch_competitor lib source height fail ≡ ok competitor
      → beside_competitor lib source header height predecessor prev_kind fail competitor ≡ ok v
      → IsStaleSibling lib source header prev_height v
  by_competitor height competitor_absent next fetch h =
      absurd (unknown_not_stale (core_absence_unknown header) refl h)
  by_competitor height competitor_unavailable next fetch h =
      absurd (unknown_not_stale (incomplete_unknown header) refl h)
  by_competitor height (competitor_found competitor) next fetch h =
      elim (Bool-cases (header.bits == competitor.header.bits)) [
        | inl b ↦
            let (check, mtp, h1) =
              >>=-eq-ok (median_time_past_passes lib source header fail) _ (rw b at h) in
            by_check height competitor check next
              (fetch_competitor_sound source fail competitor lib height fetch) b mtp h1
        | inr b ↦ absurd (unknown_not_stale (unknown header) refl (rw b at h))
      ]

  by_height :
      (next : Option ℤ)
      → checked_i32 (prev_height +ℤ pos 1) ≡ next
      → (elim next [
        | none ↦ ok (core_absence_unknown header)
        | some height ↦
            fetch_competitor lib source height fail
            >>= beside_competitor lib source header height predecessor prev_kind fail
      ])
        ≡ ok v
      → IsStaleSibling lib source header prev_height v
  by_height none e h = absurd (unknown_not_stale (core_absence_unknown header) refl h)
  by_height (some height) e h =
      let (competitor, fetch, h1) = >>=-eq-ok (fetch_competitor lib source height fail) _ h in
      by_competitor height competitor e fetch h1

  -- A header that Core does not have is inferred stale only at the height behind its prev, beside
  -- Core's own block of that height, which the verdict keeps, with that block's bits, and with a time
  -- later than the median of the eleven headers linked before it; such a verdict attests no absence.
  pub classify_inferred_stale_sound :
      classify_inferred_stale lib source header prev_height predecessor prev_kind fail ≡ ok v
      → IsStaleSibling lib source header prev_height v
  unfolding classify_inferred_stale
  classify_inferred_stale_sound h = by_height (checked_i32 (prev_height +ℤ pos 1)) refl h
