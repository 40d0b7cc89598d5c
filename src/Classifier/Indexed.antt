-- ===== src/Classifier/Indexed.antt =====
-- What a verdict that Core attests says of Core's answers.
use merge_mining_monitor.Base.{
  >>=-eq-ok, Bool, Bool-cases, Option, Result, ap, arith, bytes_eq, bytes_eq_complete, err, false,
  inl, inr, leb→le, none, ok, refl, some, sym, true, ◌||◌, ◌≡◌, ◌≢◌, ◌⊎◌,
}
use merge_mining_monitor.Base.Int.{leb_ℤ, pos, ℤ, ◌<ℤ◌, ◌≤ℤ◌}
use merge_mining_monitor.Bitcoin.{Header, Library}
use merge_mining_monitor.Classifier.{
  BlockCoinbase, ClassifiedHeader, ClassifyFault, Competitor, CoreHeaderSource, CoreHeaderStatus,
  KnownBlockContext, ParentClassification, RpcFault, canonical, competitor_absent, competitor_found,
  competitor_unavailable, is_not_found, stale, unknown,
}
use merge_mining_monitor.Classifier.Attested.{attested, attested-absent, attested-tolerate}
use merge_mining_monitor.Classifier.Core.{
  classify_core_stale_header, fetch_competitor, fetched, live_coinbase_fetch,
}
use merge_mining_monitor.Classifier.Parent.{
  Setting, at_height, classify_parent_deferred_with_policy, core_height_to_i32, from_status,
  indexed_verdict, stale_verdict,
}
use merge_mining_monitor.Classifier.Stale.{IsCoreBlock, fetch_competitor_sound}
use merge_mining_monitor.Nbits.{checked_i32}

-- Core's block at the header's height is another one.
pub record HasCompetitor (lib : Library) (source : CoreHeaderSource) (header : Header) (height : ℤ)
    (v : ParentClassification) : Type 0 where
  pub competitor : ClassifiedHeader
  pub block : IsCoreBlock source height competitor
  pub other : competitor.hash ≢ lib.block_hash header
  pub kept : v.canonical_competitor_header ≡ some competitor

-- Core has the header, in its chain or on a branch.
pub record IsIndexed (lib : Library) (source : CoreHeaderSource) (header : Header)
    (v : ParentClassification) : Type 0 where
  pub status : CoreHeaderStatus
  pub answer : source.get_header_verbose (lib.block_hash header) ≡ ok status
  pub height : ℤ
  pub fits : checked_i32 status.height ≡ some height
  pub placed : v.height ≡ some height
  pub side :
      ((v.kind ≡ canonical) × (pos 0 ≤ℤ status.confirmations))
      ⊎ ((v.kind ≡ stale)
          × (status.confirmations <ℤ pos 0)
          × HasCompetitor lib source header height v)

verdict_injective :
    {a b : ParentClassification}
    → ◌≡◌ {A = Result ClassifyFault ParentClassification} (ok a) (ok b)
    → a ≡ b
verdict_injective e = cc

module _ (lib : Library) (source : CoreHeaderSource) (header : Header) (v : ParentClassification)
    (by_core : v.core_attested ≡ true) where
  not_attested :
      (u : ParentClassification)
      → u.core_attested ≡ false
      → ¬ (◌≡◌ {A = Result ClassifyFault ParentClassification} (ok u) (ok v))
  not_attested u no_core h = cc (ap (λ x. x.core_attested) (verdict_injective h))

  stale_by_competitor :
      (height : ℤ) (coinbase : Option BlockCoinbase) (unavailable fail : Bool)
      (competitor : Competitor)
      → fetch_competitor lib source height fail ≡ ok competitor
      → ◌≡◌ {A = Result ClassifyFault ParentClassification}
          (ok (stale_verdict lib source header height coinbase unavailable competitor))
          (ok v)
      → (v.kind ≡ stale) × (v.height ≡ some height) × HasCompetitor lib source header height v
  unfolding classify_core_stale_header
  stale_by_competitor height coinbase unavailable fail competitor_absent fetch h =
      absurd (not_attested _ refl h)
  stale_by_competitor height coinbase unavailable fail competitor_unavailable fetch h =
      absurd (not_attested _ refl h)
  stale_by_competitor height coinbase unavailable fail (competitor_found competitor) fetch h =
      elim (Bool-cases (bytes_eq competitor.hash (lib.block_hash header))) [
        | inl b ↦ absurd (not_attested _ refl (rw b at h))
        | inr b ↦
            let e = verdict_injective (rw b at h) in
            (
              sym (ap (λ x. x.kind) e),
              sym (ap (λ x. x.height) e),
              record {
                competitor = competitor;
                block = fetch_competitor_sound source fail competitor lib height fetch;
                other = λ same. cc (bytes_eq_complete _ _ same, b);
                kept = sym (ap (λ x. x.canonical_competitor_header) e);
              },
            )
      ]

  IsIndexed-sound :
      (status : CoreHeaderStatus) (height : ℤ) (fail : Bool) (fetch : Option BlockCoinbase × Bool)
      → source.get_header_verbose (lib.block_hash header) ≡ ok status
      → checked_i32 status.height ≡ some height
      → indexed_verdict lib source header height status.confirmations fail fetch ≡ ok v
      → IsIndexed lib source header v
  IsIndexed-sound status height fail (coinbase, unavailable) answer fits h =
      elim (Bool-cases (leb_ℤ (pos 0) status.confirmations)) [
        | inl b ↦
            let e = verdict_injective (rw b at h) in
            record {
              status = status;
              answer = answer;
              height = height;
              fits = fits;
              placed = sym (ap (λ x. x.height) e);
              side = inl (sym (ap (λ x. x.kind) e), leb→le _ _ b);
            }
        | inr b ↦
            let (competitor, fetched_it, h1) =
              >>=-eq-ok (fetch_competitor lib source height fail) _ (rw b at h) in
            let (kind, placed, beside) =
              stale_by_competitor height coinbase unavailable fail competitor fetched_it h1 in
            record {
              status = status;
              answer = answer;
              height = height;
              fits = fits;
              placed = placed;
              side = inr (kind, ground arith, beside);
            }
      ]

  at_height_sound :
      (status : CoreHeaderStatus) (live fail : Bool) (height : Option ℤ)
      → source.get_header_verbose (lib.block_hash header) ≡ ok status
      → checked_i32 status.height ≡ height
      → at_height lib source header live fail status.confirmations height ≡ ok v
      → IsIndexed lib source header v
  at_height_sound status true fail none answer fits h = cc
  at_height_sound status false fail none answer fits h =
      absurd (not_attested (unknown header) refl h)
  at_height_sound status live fail (some height) answer fits h =
      let (fetch, _, h1) =
        >>=-eq-ok (live_coinbase_fetch (source.get_block_coinbase (lib.block_hash header)) live) _
          h in
      IsIndexed-sound status height fail (fetched fetch) answer fits h1

  status_sound :
      (setting : Setting) (fail : Bool)
      (preflight : Result ClassifyFault (Option KnownBlockContext))
      (answer : Result RpcFault CoreHeaderStatus)
      → source.get_header_verbose (lib.block_hash header) ≡ answer
      → from_status lib source header setting fail preflight answer ≡ ok v
      → IsIndexed lib source header v
  unfolding attested
  status_sound setting fail preflight (ok status) e h =
      at_height_sound status setting.live fail (core_height_to_i32 status.height) e refl h
  status_sound setting fail preflight (err fault) e h = elim (Bool-cases (is_not_found fault)) [
    | inl b ↦
        cc (
          attested-absent lib source header fail setting preflight,
          ap attested (rw b at h),
          by_core,
        )
    | inr b ↦ cc (attested-tolerate header fail fault, ap attested (rw b at h), by_core)
  ]

  -- A verdict that Core attests comes only from Core's answer about the header's own hash, at the
  -- height that the answer gives, which fits an i32: it is canonical if the header is in Core's chain,
  -- and else stale, with a competitor that is Core's block at that height and has another hash.
  pub classify_parent_attested :
      (setting : Setting) (preflight : Result ClassifyFault (Option KnownBlockContext))
      → classify_parent_deferred_with_policy lib source header setting preflight ≡ ok v
      → IsIndexed lib source header v
  unfolding classify_parent_deferred_with_policy
  classify_parent_attested setting preflight h =
      status_sound setting (setting.fail_on_rpc_error || setting.live) preflight
        (source.get_header_verbose (lib.block_hash header)) refl h
