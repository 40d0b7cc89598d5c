-- ===== src/Orphan.antt =====
-- crates/mmm-capture/src/btc_orphan.rs: whether an unattested header is a Bitcoin orphan.
pub mod Evidence
pub mod Verdicts
use merge_mining_monitor.Auxpow.Verify.{parse_bip34_height}
use merge_mining_monitor.Base.{
  Bool, List, Option, String, [], and_then, bytes_eq, false, if◌then◌else◌, keep_if, none, not,
  some, true, ℕ, ◌&&◌, ◌∷◌,
}
use merge_mining_monitor.Base.Int.{leb_ℤ, pos, ℤ}
use merge_mining_monitor.Base.Text.{contains, same_text}
use merge_mining_monitor.Base.Words.{Bytes}
use merge_mining_monitor.Bitcoin.{Library, TxIn}
use merge_mining_monitor.Lineage.{
  Lineage, ParentLineageInput, bitcoin, bitcoin_lineage, current_epoch, epoch_time, not_bitcoin,
  pending, placed_prev, strict_height_match,
}
use merge_mining_monitor.Nbits.{NbitsTable, chain}

-- `BIP34_HEIGHT`
abbrev pub bip34_height : ℤ
bip34_height = pos 227_931

abbrev pub strict_bip34_chains : List String
strict_bip34_chains =
    "argentum" ∷ "bitcoin-vault" ∷ "bitmark" ∷ "coiledcoin" ∷ "crown" ∷ "devcoin" ∷ "doichain"
    ∷ "elastos" ∷ "emercoin" ∷ "fractal" ∷ "geistgeld" ∷ "groupcoin" ∷ "hathor" ∷ "huntercoin"
    ∷ "i0coin" ∷ "ixcoin" ∷ "myriadcoin" ∷ "namecoin" ∷ "qbit" ∷ "syscoin" ∷ "terracoin"
    ∷ "unobtanium" ∷ []

unfoldable pub is_strict_bip34_chain : String → Bool
unfolding contains
is_strict_bip34_chain chain = contains strict_bip34_chains chain

abbrev pub since_bip34 : Option ℤ → Option ℤ
since_bip34 height = keep_if height (λ height. leb_ℤ bip34_height height)

-- a coinbase transaction has an input, whose script the program takes by index
abbrev pub has_script : List TxIn → Bytes → Bool
has_script [] script = false
has_script (input ∷ _) script = bytes_eq input.script_sig script

-- Hathor's check of the whole transaction
unfoldable pub hathor_evidence : Library → Bytes → Option Bytes → Bool
unfolding bytes_eq
hathor_evidence lib script_sig tx_bytes = elim (and_then tx_bytes lib.deserialize_transaction) [
  | none ↦ false
  | some tx ↦ lib.is_coinbase tx && has_script tx.input script_sig
]

unfoldable pub strict_bip34_height_from_evidence :
    Library → String → Bytes → Option Bytes → Option ℤ
unfolding is_strict_bip34_chain hathor_evidence same_text parse_bip34_height
strict_bip34_height_from_evidence lib chain script_sig tx_bytes =
    if not (is_strict_bip34_chain chain)
    then none
    else if same_text chain "hathor" && not (hathor_evidence lib script_sig tx_bytes)
    then none
    else since_bip34 (parse_bip34_height script_sig)

pub data BtcOrphanVerdict : Type 0 where
  strict weak excluded undecided : BtcOrphanVerdict

unfoldable pub as_db_str : BtcOrphanVerdict → Option String
as_db_str strict = some "strict_btc_orphan"
as_db_str weak = some "weak_btc_orphan"
as_db_str excluded = some "excluded"
as_db_str undecided = none

unfoldable pub verdict_of : Lineage → BtcOrphanVerdict × String
verdict_of (bitcoin strict_height_match) = (strict, "strict_height_nbits_match")
verdict_of (bitcoin placed_prev) = (strict, "strict_height_nbits_match")
verdict_of (bitcoin epoch_time) = (weak, "timestamp_epoch_nbits_match")
verdict_of (bitcoin current_epoch) = (undecided, "above_nbits_time_horizon")
verdict_of (not_bitcoin reason) = (excluded, reason)
verdict_of (pending reason) = (undecided, reason)

abbrev pub orphan_input : ℤ → ℕ → Option ℤ → ParentLineageInput
orphan_input header_time header_bits strict_height = record {
  bits = header_bits;
  time = header_time;
  meets_own_target = true;
  prev_height = none;
  strict_height = since_bip34 strict_height;
}

unfoldable pub classify_btc_orphan_with : NbitsTable → ℤ → ℕ → Option ℤ → BtcOrphanVerdict × String
unfolding verdict_of bitcoin_lineage
classify_btc_orphan_with nbits header_time header_bits strict_height =
    verdict_of (bitcoin_lineage (orphan_input header_time header_bits strict_height) nbits)
