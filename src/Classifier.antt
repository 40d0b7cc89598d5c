-- ===== src/Classifier.antt =====
-- crates/mmm-bitcoin-core/src/parent_classifier: the verdict on a parent header from Bitcoin Core's
-- answers. Core itself is the parameter `CoreHeaderSource`; nothing is assumed of its answers.
pub mod Core
pub mod Parent
pub mod Median
pub mod Absence
pub mod Stale
pub mod Attested
pub mod Indexed
use merge_mining_monitor.Base.{
  Bool, List, Option, Result, String, [], ensure, err, false, if◌then◌else◌, leb, none, not, ok,
  some, true, ℕ, ◌==◌, ◌>>=◌, ◌>>◌, ◌∷◌,
}
use merge_mining_monitor.Base.Int.{eqb_ℤ, leb_ℤ, pos, ℤ, ◌-ℤ◌}
use merge_mining_monitor.Base.Words.{Bytes}
use merge_mining_monitor.Bitcoin.{Header}

-- what the program tells apart in a failed call
pub data RpcFault : Type 0 where
  not_found height_out_of_range body_pruned transport : RpcFault

-- why a classification failed, and what a tip that is not ready lacks
pub data ClassifyFault : Type 0 where
  rpc : RpcFault → ClassifyFault
  invalid_response wrong_ancestor unreachable_kind : ClassifyFault
  wrong_network initial_block_download header_lag stale_tip : ClassifyFault

pub data HeightSource : Type 0 where
  bitcoin_core prev_canonical prev_stale invalid_block_catalog : HeightSource

pub data BlockKind : Type 0 where
  known_canonical known_stale known_invalid known_unknown : BlockKind

pub data ParentKind : Type 0 where
  canonical stale invalid_block near unknown_kind : ParentKind

pub record KnownBlockContext : Type 0 where
  pub kind : BlockKind
  pub btc_height : Option ℤ
  pub btc_height_source : Option HeightSource
  pub canonical_competitor_hash : Option Bytes
  pub core_attested : Bool

-- its `txid`, `script` and `outputs`
pub record BlockCoinbase : Type 0 where
  pub txid : Bytes
  pub script : Bytes
  pub outputs : Bytes

pub record ClassifiedHeader : Type 0 where
  pub hash : Bytes
  pub prev_hash : Bytes
  pub header : Header
  pub height : ℤ
  pub coinbase : Option BlockCoinbase
  pub coinbase_unavailable : Bool

pub record ParentClassification : Type 0 where
  pub kind : ParentKind
  pub height : Option ℤ
  pub height_source : Option HeightSource
  pub prev_hash : Bytes
  pub canonical_predecessor_header : Option ClassifiedHeader
  pub canonical_competitor_header : Option ClassifiedHeader
  pub canonical_competitor_hash : Option Bytes
  pub coinbase : Option BlockCoinbase
  pub difficulty_epoch_ok : Option Bool
  pub rejection_reason : Option String
  pub live_observed : Bool
  pub core_attested : Bool
  pub core_absence_attested : Bool
  pub incomplete : Bool

pub record CoreHeaderStatus : Type 0 where
  pub height : ℤ
  pub confirmations : ℤ

pub record ChainStatus : Type 0 where
  pub is_mainnet : Bool
  pub blocks : ℤ
  pub headers : ℤ
  pub initial_block_download : Bool
  pub median_time : ℤ

pub record CoreHeaderSource : Type 0 where
  pub get_block_hash : ℕ → Result RpcFault Bytes
  pub get_header : Bytes → ℤ → Result RpcFault ClassifiedHeader
  pub get_block_header : Bytes → Result RpcFault Header
  pub get_header_verbose : Bytes → Result RpcFault CoreHeaderStatus
  pub get_block_coinbase : Bytes → Result RpcFault BlockCoinbase

abbrev pub unknown : Header → ParentClassification
unknown header = record {
  kind = unknown_kind;
  height = none;
  height_source = none;
  prev_hash = header.prev_blockhash;
  canonical_predecessor_header = none;
  canonical_competitor_header = none;
  canonical_competitor_hash = none;
  coinbase = none;
  difficulty_epoch_ok = none;
  rejection_reason = none;
  live_observed = false;
  core_attested = false;
  core_absence_attested = false;
  incomplete = false;
}

abbrev pub incomplete_unknown : Header → ParentClassification
incomplete_unknown header = record (unknown header) { incomplete = true }

abbrev pub core_absence_unknown : Header → ParentClassification
core_absence_unknown header = record (unknown header) { core_absence_attested = true }

abbrev pub invalid_block_verdict :
    Header → ℤ → HeightSource → Option Bool → String → ParentClassification
invalid_block_verdict header height height_source difficulty_epoch_ok rejection_reason =
    record (unknown header) {
      kind = invalid_block;
      height = some height;
      height_source = some height_source;
      difficulty_epoch_ok = difficulty_epoch_ok;
      rejection_reason = some rejection_reason;
    }

abbrev pub classify_core_canonical_header : Header → ℤ → Option BlockCoinbase → ParentClassification
classify_core_canonical_header header height coinbase = record (unknown header) {
  kind = canonical;
  height = some height;
  height_source = some bitcoin_core;
  coinbase = coinbase;
  difficulty_epoch_ok = some true;
  live_observed = true;
  core_attested = true;
}

abbrev pub unavailable_predecessor : Option ClassifiedHeader → Bool
unavailable_predecessor none = false
unavailable_predecessor (some predecessor) = predecessor.coinbase_unavailable

abbrev pub bits_match_expected : Header → ℕ → Bool
bits_match_expected header expected = header.bits == expected

-- the other two kinds never reach stale inference
abbrev pub inferred_height_source : BlockKind → Result ClassifyFault HeightSource
inferred_height_source known_canonical = ok prev_canonical
inferred_height_source known_stale = ok prev_stale
inferred_height_source known_invalid = err unreachable_kind
inferred_height_source known_unknown = err unreachable_kind

pub data CoinbaseFetch : Type 0 where
  coinbase_found : BlockCoinbase → CoinbaseFetch
  coinbase_missing fetch_unavailable : CoinbaseFetch

pub data MtpCheck : Type 0 where
  passes : Bool → MtpCheck
  ancestor_missing mtp_unavailable : MtpCheck

pub data Competitor : Type 0 where
  competitor_found : ClassifiedHeader → Competitor
  competitor_absent competitor_unavailable : Competitor

abbrev pub is_not_found : RpcFault → Bool
is_not_found not_found = true
is_not_found height_out_of_range = false
is_not_found body_pruned = false
is_not_found transport = false

-- `is_not_found(err) || is_block_body_pruned(err)`
abbrev pub has_no_body : RpcFault → Bool
has_no_body not_found = true
has_no_body body_pruned = true
has_no_body height_out_of_range = false
has_no_body transport = false

-- `is_block_height_out_of_range(err) || is_not_found(err)`
abbrev pub has_no_block : RpcFault → Bool
has_no_block not_found = true
has_no_block height_out_of_range = true
has_no_block body_pruned = false
has_no_block transport = false

-- a failure that the strict policy passes on and the lenient one answers
abbrev pub tolerate {ℓ} : {A : Type ℓ} → Bool → RpcFault → A → Result ClassifyFault A
tolerate true fault answer = err (rpc fault)
tolerate false fault answer = ok answer

-- `saturating_sub` differs from the exact difference only where both are above the limit
abbrev pub tip_is_fresh : ℤ → ℤ → Bool
tip_is_fresh median_time now_secs = leb_ℤ (now_secs -ℤ median_time) (pos 86_400)

unfoldable pub ready_tip : ChainStatus → ℤ → Result ClassifyFault (Unit {0})
ready_tip status now_secs = do
  ensure status.is_mainnet wrong_network
  ensure (not status.initial_block_download) initial_block_download
  ensure (eqb_ℤ status.blocks status.headers) header_lag
  ensure (tip_is_fresh status.median_time now_secs) stale_tip

-- `sort_unstable` of the times
unfoldable pub insert_time : ℕ → List ℕ → List ℕ
insert_time t [] = t ∷ []
insert_time t (x ∷ xs) = let rest = insert_time t xs in if leb t x then t ∷ x ∷ xs else x ∷ rest

unfoldable pub sort_times : List ℕ → List ℕ
unfolding insert_time
sort_times [] = []
sort_times (t ∷ ts) = insert_time t (sort_times ts)
