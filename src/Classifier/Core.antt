-- ===== src/Classifier/Core.antt =====
-- core.rs: the classification of one parent header. The program asks for the chain's status at most
-- twice; the two answers are arguments, as is the time.
use merge_mining_monitor.Base.{
  Bool, List, Option, Result, [], bytes_eq, ensure, err, false, get_or, if◌then◌else◌, ltb, none,
  not, ok, some, suc, true, zero, ℕ, ◌&&◌, ◌>>=◌, ◌>>◌, ◌||◌, ◌∷◌,
}
use merge_mining_monitor.Base.Int.{negsuc, pos, ℤ, ◌+ℤ◌}
use merge_mining_monitor.Base.Words.{Bytes}
use merge_mining_monitor.Bitcoin.{Header, Library}
use merge_mining_monitor.Classifier.{
  BlockCoinbase, BlockKind, ClassifiedHeader, ClassifyFault, CoinbaseFetch, Competitor,
  CoreHeaderSource, HeightSource, MtpCheck, ParentClassification, RpcFault, ancestor_missing,
  bitcoin_core, bits_match_expected, coinbase_found, coinbase_missing, competitor_absent,
  competitor_found, competitor_unavailable, core_absence_unknown, fetch_unavailable, has_no_block,
  has_no_body, incomplete_unknown, inferred_height_source, invalid_block_verdict, is_not_found,
  mtp_unavailable, passes, rpc, sort_times, stale, tolerate, unavailable_predecessor, unknown,
  wrong_ancestor,
}
use merge_mining_monitor.Nbits.{checked_i32}

-- the times of the ancestors, or what stopped the walk
pub data Ancestors : Type 0 where
  gathered : List ℕ → Ancestors
  missing_ancestor unavailable_ancestor : Ancestors

abbrev pub prepend_time : ℕ → Ancestors → Ancestors
prepend_time time (gathered times) = gathered (time ∷ times)
prepend_time time missing_ancestor = missing_ancestor
prepend_time time unavailable_ancestor = unavailable_ancestor

abbrev pub mtp_window : ℕ
mtp_window = 11

abbrev pub mtp_of : Header → Ancestors → MtpCheck
mtp_of candidate (gathered times) = passes (ltb (get_or (sort_times times) 5 0) candidate.time)
mtp_of candidate missing_ancestor = ancestor_missing
mtp_of candidate unavailable_ancestor = mtp_unavailable

-- a coinbase that a finite run may go without
abbrev pub coinbase_fetch : Result RpcFault BlockCoinbase → CoinbaseFetch
coinbase_fetch (ok coinbase) = coinbase_found coinbase
coinbase_fetch (err fault) = if has_no_body fault then coinbase_missing else fetch_unavailable

abbrev pub live_coinbase_fetch :
    Result RpcFault BlockCoinbase → Bool → Result ClassifyFault CoinbaseFetch
live_coinbase_fetch (ok coinbase) live = ok (coinbase_found coinbase)
live_coinbase_fetch (err fault) live =
    if live && not (has_no_body fault) then err (rpc fault) else ok (coinbase_fetch (err fault))

abbrev pub fetched : CoinbaseFetch → Option BlockCoinbase × Bool
fetched (coinbase_found coinbase) = (some coinbase, false)
fetched coinbase_missing = (none, false)
fetched fetch_unavailable = (none, true)

module _ (lib : Library) where
  unfoldable pub classify_core_stale_header :
      Header → ℤ → Option ClassifiedHeader → Option BlockCoinbase → ParentClassification
  unfolding bytes_eq
  classify_core_stale_header header height none coinbase = unknown header
  classify_core_stale_header header height (some competitor) coinbase =
      if bytes_eq competitor.hash (lib.block_hash header)
      then unknown header
      else record (unknown header) {
        kind = stale;
        height = some height;
        height_source = some bitcoin_core;
        canonical_competitor_hash = some competitor.hash;
        incomplete = competitor.coinbase_unavailable;
        canonical_competitor_header = some competitor;
        coinbase = coinbase;
        difficulty_epoch_ok = some true;
        live_observed = true;
        core_attested = true;
      }

abbrev pub inferred_stale :
    Header → ℤ → Option ClassifiedHeader → HeightSource → ClassifiedHeader → ParentClassification
inferred_stale header height predecessor height_source competitor = record (unknown header) {
  kind = stale;
  height = some height;
  height_source = some height_source;
  canonical_predecessor_header = predecessor;
  canonical_competitor_hash = some competitor.hash;
  canonical_competitor_header = some competitor;
  difficulty_epoch_ok = some true;
  incomplete = competitor.coinbase_unavailable || unavailable_predecessor predecessor;
}

unfoldable pub classify_inferred_stale_with_competitor :
    Header
    → ℤ
    → Option ClassifiedHeader
    → BlockKind
    → Option ClassifiedHeader
    → Result ClassifyFault ParentClassification
classify_inferred_stale_with_competitor header height predecessor prev_kind none =
    ok (unknown header)
classify_inferred_stale_with_competitor header height predecessor prev_kind (some competitor) =
    if not (bits_match_expected header competitor.header.bits) then ok (unknown header) else do
      height_source ← inferred_height_source prev_kind
      ok (inferred_stale header height predecessor height_source competitor)

module _ (lib : Library) (source : CoreHeaderSource) where
  unfoldable pub ancestors : Bool → ℕ → Bytes → Result ClassifyFault Ancestors
  unfolding bytes_eq
  ancestors fail_on_rpc_error zero expected_hash = ok (gathered [])
  ancestors fail_on_rpc_error (suc n) expected_hash = elim (source.get_block_header expected_hash) [
    | err fault ↦
        if is_not_found fault
        then ok missing_ancestor
        else tolerate fail_on_rpc_error fault unavailable_ancestor
    | ok header ↦
        ensure (bytes_eq (lib.block_hash header) expected_hash) wrong_ancestor
        >> (ancestors fail_on_rpc_error n header.prev_blockhash >>= λ rest.
            ok (prepend_time header.time rest))
  ]

  unfoldable pub median_time_past_passes : Header → Bool → Result ClassifyFault MtpCheck
  unfolding ancestors
  median_time_past_passes candidate fail_on_rpc_error = do
    walked ← ancestors fail_on_rpc_error mtp_window candidate.prev_blockhash
    ok (mtp_of candidate walked)

  unfoldable pub competitor_header : Bytes → ℤ → Bool → Result ClassifyFault Competitor
  competitor_header hash height fail_on_rpc_error = elim (source.get_header hash height) [
    | ok header ↦ ok (competitor_found header)
    | err fault ↦
        if is_not_found fault
        then ok competitor_absent
        else tolerate fail_on_rpc_error fault competitor_unavailable
  ]

  unfoldable pub fetch_competitor : ℤ → Bool → Result ClassifyFault Competitor
  unfolding competitor_header
  fetch_competitor (negsuc n) fail_on_rpc_error = ok competitor_absent
  fetch_competitor (pos n) fail_on_rpc_error = elim (source.get_block_hash n) [
    | ok hash ↦ competitor_header hash (pos n) fail_on_rpc_error
    | err fault ↦
        if has_no_block fault
        then ok competitor_absent
        else tolerate fail_on_rpc_error fault competitor_unavailable
  ]

  abbrev pub mtp_verdict :
      Header
      → ℤ
      → Option ClassifiedHeader
      → BlockKind
      → ClassifiedHeader
      → MtpCheck
      → Result ClassifyFault ParentClassification
  mtp_verdict header height predecessor prev_kind competitor (passes true) =
      classify_inferred_stale_with_competitor header height predecessor prev_kind (some competitor)
  mtp_verdict header height predecessor prev_kind competitor (passes false) =
      inferred_height_source prev_kind >>= λ height_source.
      ok (invalid_block_verdict header height height_source (some true) "time_below_mtp")
  mtp_verdict header height predecessor prev_kind competitor ancestor_missing = ok (unknown header)
  mtp_verdict header height predecessor prev_kind competitor mtp_unavailable =
      ok (incomplete_unknown header)

  abbrev pub beside_competitor :
      Header
      → ℤ
      → Option ClassifiedHeader
      → BlockKind
      → Bool
      → Competitor
      → Result ClassifyFault ParentClassification
  beside_competitor header height predecessor prev_kind fail_on_rpc_error competitor_absent =
      ok (core_absence_unknown header)
  beside_competitor header height predecessor prev_kind fail_on_rpc_error competitor_unavailable =
      ok (incomplete_unknown header)
  beside_competitor header height predecessor prev_kind fail_on_rpc_error
        (competitor_found competitor) =
      if not (bits_match_expected header competitor.header.bits)
      then ok (unknown header)
      else (median_time_past_passes header fail_on_rpc_error
          >>= mtp_verdict header height predecessor prev_kind competitor)

  unfoldable pub classify_inferred_stale :
      Header
      → ℤ
      → Option ClassifiedHeader
      → BlockKind
      → Bool
      → Result ClassifyFault ParentClassification
  unfolding fetch_competitor median_time_past_passes classify_inferred_stale_with_competitor
  classify_inferred_stale header prev_height predecessor prev_kind fail_on_rpc_error =
      elim (checked_i32 (prev_height +ℤ pos 1)) [
        | none ↦ ok (core_absence_unknown header)
        | some height ↦
            fetch_competitor height fail_on_rpc_error
            >>= beside_competitor header height predecessor prev_kind fail_on_rpc_error
      ]

  abbrev pub child_verdict : Header → Competitor → ParentClassification
  child_verdict header (competitor_found competitor) =
      if not (bits_match_expected header competitor.header.bits)
      then unknown header
      else core_absence_unknown header
  child_verdict header competitor_absent = core_absence_unknown header
  child_verdict header competitor_unavailable = incomplete_unknown header

  unfoldable pub classify_invalid_block_child :
      Header → ℤ → Bool → Result ClassifyFault ParentClassification
  unfolding fetch_competitor
  classify_invalid_block_child header prev_height fail_on_rpc_error =
      elim (checked_i32 (prev_height +ℤ pos 1)) [
        | none ↦ ok (core_absence_unknown header)
        | some height ↦ fetch_competitor height fail_on_rpc_error >>= λ competitor.
            ok (child_verdict header competitor)
      ]
