-- ===== src/Classifier/Parent.antt =====
-- core.rs: the classification from the first lookup on.
use merge_mining_monitor.Base.{
  Bool, Option, Result, err, false, if◌then◌else◌, none, ok, some, true, ◌&&◌, ◌>>=◌, ◌>>◌, ◌||◌,
}
use merge_mining_monitor.Base.Int.{leb_ℤ, pos, ℤ}
use merge_mining_monitor.Bitcoin.{Header, Library}
use merge_mining_monitor.Classifier.{
  BlockCoinbase, BlockKind, ChainStatus, ClassifiedHeader, ClassifyFault, Competitor,
  CoreHeaderSource, CoreHeaderStatus, KnownBlockContext, ParentClassification, RpcFault,
  classify_core_canonical_header, competitor_absent, competitor_found, competitor_unavailable,
  core_absence_unknown, incomplete_unknown, invalid_response, is_not_found, known_canonical,
  known_invalid, known_stale, known_unknown, ready_tip, tolerate, unknown,
}
use merge_mining_monitor.Classifier.Core.{
  classify_core_stale_header, classify_inferred_stale, classify_invalid_block_child,
  fetch_competitor, fetched, live_coinbase_fetch,
}
use merge_mining_monitor.Nbits.{checked_i32}

-- what the policy and the clock give a classification
pub record Setting : Type 0 where
  pub live : Bool
  pub fail_on_rpc_error : Bool
  pub now : ℤ
  -- the answers to the calls of `get_chain_status`, before and behind the classification
  pub status_before : ChainStatus
  pub status_after : ChainStatus

abbrev pub core_height_to_i32 : ℤ → Option ℤ
core_height_to_i32 height = checked_i32 height

-- an over-long height is a fault of Core in live mode
abbrev pub height_fault {ℓ} : {A : Type ℓ} → Bool → A → Result ClassifyFault A
height_fault true answer = err invalid_response
height_fault false answer = ok answer

abbrev pub with_incomplete : ParentClassification → Bool → ParentClassification
with_incomplete verdict unavailable = record verdict {
  incomplete = verdict.incomplete || unavailable;
}

module _ (lib : Library) (source : CoreHeaderSource) where
  abbrev pub from_predecessor :
      Header
      → Bool
      → ℤ
      → Result RpcFault ClassifiedHeader
      → Result ClassifyFault ParentClassification
  from_predecessor header fail prev_height (ok predecessor) =
      classify_inferred_stale lib source header prev_height (some predecessor) known_canonical fail
  from_predecessor header fail prev_height (err fault) =
      tolerate fail fault (incomplete_unknown header)

  abbrev pub from_prev_height :
      Header → Bool → Bool → Option ℤ → Result ClassifyFault ParentClassification
  from_prev_height header live fail none = height_fault live (core_absence_unknown header)
  from_prev_height header live fail (some prev_height) =
      from_predecessor header fail prev_height (source.get_header header.prev_blockhash prev_height)

  abbrev pub from_prev_status :
      Header
      → Bool
      → Bool
      → Result RpcFault CoreHeaderStatus
      → Result ClassifyFault ParentClassification
  from_prev_status header live fail (ok status) =
      if leb_ℤ (pos 0) status.confirmations
      then from_prev_height header live fail (core_height_to_i32 status.height)
      else ok (core_absence_unknown header)
  from_prev_status header live fail (err fault) =
      if is_not_found fault
      then ok (core_absence_unknown header)
      else tolerate fail fault (incomplete_unknown header)

  abbrev pub from_core : Header → Bool → Bool → Result ClassifyFault ParentClassification
  from_core header live fail =
      from_prev_status header live fail (source.get_header_verbose header.prev_blockhash)

  abbrev pub from_known :
      Header → Bool → Bool → BlockKind → ℤ → Result ClassifyFault ParentClassification
  from_known header live fail known_canonical prev_height =
      classify_inferred_stale lib source header prev_height none known_canonical fail
  from_known header live fail known_stale prev_height =
      classify_inferred_stale lib source header prev_height none known_stale fail
  from_known header live fail known_invalid prev_height =
      classify_invalid_block_child lib source header prev_height fail
  from_known header live fail known_unknown prev_height = from_core header live fail

  abbrev pub from_height :
      Header → Bool → Bool → BlockKind → Option ℤ → Result ClassifyFault ParentClassification
  from_height header live fail kind none = from_core header live fail
  from_height header live fail kind (some prev_height) =
      from_known header live fail kind prev_height

  unfoldable pub classify_core_unknown :
      Header → Bool → Option KnownBlockContext → Bool → Result ClassifyFault ParentClassification
  unfolding classify_inferred_stale classify_invalid_block_child
  classify_core_unknown header live none fail = from_core header live fail
  classify_core_unknown header live (some known_prev) fail =
      from_height header live fail known_prev.kind known_prev.btc_height

  abbrev pub ready_if : Bool → ChainStatus → ℤ → Result ClassifyFault (Unit {0})
  ready_if true status now = ready_tip status now
  ready_if false status now = ok tt

  -- Core does not know the header; the database's answer about the prev is `preflight`
  unfoldable pub classify_absent :
      Header
      → Setting
      → Bool
      → Result ClassifyFault (Option KnownBlockContext)
      → Result ClassifyFault ParentClassification
  unfolding ready_tip classify_core_unknown
  classify_absent header setting fail preflight = do
    ready_if setting.live setting.status_before setting.now
    known_prev ← preflight
    verdict ← classify_core_unknown header setting.live known_prev fail
    ready_if (setting.live && verdict.core_absence_attested) setting.status_after setting.now
    ok verdict

  abbrev pub stale_verdict :
      Header → ℤ → Option BlockCoinbase → Bool → Competitor → ParentClassification
  stale_verdict header height coinbase unavailable (competitor_found competitor) =
      with_incomplete (classify_core_stale_header lib header height (some competitor) coinbase)
        unavailable
  stale_verdict header height coinbase unavailable competitor_absent =
      with_incomplete (classify_core_stale_header lib header height none coinbase) unavailable
  stale_verdict header height coinbase unavailable competitor_unavailable =
      incomplete_unknown header

  abbrev pub indexed_verdict :
      Header
      → ℤ
      → ℤ
      → Bool
      → Option BlockCoinbase × Bool
      → Result ClassifyFault ParentClassification
  indexed_verdict header height confirmations fail (coinbase, unavailable) =
      if leb_ℤ (pos 0) confirmations
      then ok (record (classify_core_canonical_header header height coinbase) {
        incomplete = unavailable;
      })
      else (fetch_competitor lib source height fail >>= λ competitor.
          ok (stale_verdict header height coinbase unavailable competitor))

  abbrev pub at_height :
      Header → Bool → Bool → ℤ → Option ℤ → Result ClassifyFault ParentClassification
  at_height header live fail confirmations none = height_fault live (unknown header)
  at_height header live fail confirmations (some height) =
      live_coinbase_fetch (source.get_block_coinbase (lib.block_hash header)) live >>= λ fetch.
      indexed_verdict header height confirmations fail (fetched fetch)

  abbrev pub from_status :
      Header
      → Setting
      → Bool
      → Result ClassifyFault (Option KnownBlockContext)
      → Result RpcFault CoreHeaderStatus
      → Result ClassifyFault ParentClassification
  from_status header setting fail preflight (ok status) =
      at_height header setting.live fail status.confirmations (core_height_to_i32 status.height)
  from_status header setting fail preflight (err fault) =
      if is_not_found fault
      then classify_absent header setting fail preflight
      else tolerate fail fault (incomplete_unknown header)

  unfoldable pub classify_parent_deferred_with_policy :
      Header
      → Setting
      → Result ClassifyFault (Option KnownBlockContext)
      → Result ClassifyFault ParentClassification
  unfolding classify_absent fetch_competitor classify_core_stale_header
  classify_parent_deferred_with_policy header setting preflight =
      from_status header setting (setting.fail_on_rpc_error || setting.live) preflight
        (source.get_header_verbose (lib.block_hash header))
