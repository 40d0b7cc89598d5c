-- ===== src/Orphan/Evidence.antt =====
-- What a strict coinbase height rests on.
use mathlib.Core.Path.{subst}
use merge_mining_monitor.Auxpow.Verify.{parse_bip34_height}
use merge_mining_monitor.Base.{
  Bool, Bool-cases, List, Option, String, [], and-true, bytes_eq_sound, false, if◌then◌else◌, inl,
  inr, leb→le, none, not, refl, some, true, ◌&&◌, ◌∷◌, ◌≡◌, ◌≢◌, ◌⊎◌,
}
use merge_mining_monitor.Base.Int.{leb_ℤ, ℤ, ◌≤ℤ◌}
use merge_mining_monitor.Base.Text.{same_text, same_text_iff}
use merge_mining_monitor.Base.Words.{Bytes}
use merge_mining_monitor.Bitcoin.{Library, Transaction, TxIn}
use merge_mining_monitor.Nbits.{chain}
use merge_mining_monitor.Orphan.{
  bip34_height, has_script, hathor_evidence, is_strict_bip34_chain, since_bip34,
  strict_bip34_height_from_evidence,
}

-- The transaction that Hathor's evidence must hold.
pub record IsHathorCoinbase (lib : Library) (script_sig : Bytes) (tx_bytes : Option Bytes)
    : Type 0 where
  pub bytes : Bytes
  pub given : tx_bytes ≡ some bytes
  pub tx : Transaction
  pub parsed : lib.deserialize_transaction bytes ≡ some tx
  pub is_coinbase : lib.is_coinbase tx ≡ true
  pub first : TxIn
  pub rest : List TxIn
  pub inputs : tx.input ≡ first ∷ rest
  pub bound : first.script_sig ≡ script_sig

scripts_bound :
    (inputs : List TxIn) (script : Bytes)
    → has_script inputs script ≡ true
    → (first : TxIn) × (rest : List TxIn) × (inputs ≡ first ∷ rest) × (first.script_sig ≡ script)
scripts_bound [] script h = cc
scripts_bound (input ∷ inputs) script h = (input, inputs, refl, bytes_eq_sound _ _ h)

pub since_bip34-some :
    (o : Option ℤ) (height : ℤ)
    → since_bip34 o ≡ some height
    → (o ≡ some height) × (bip34_height ≤ℤ height)
since_bip34-some none height h = cc
since_bip34-some (some z) height h = elim (Bool-cases (leb_ℤ bip34_height z)) [
  | inl b ↦
      let e = rw b at h in (e, subst (λ z. bip34_height ≤ℤ z) (some_injective e) (leb→le _ _ b))
  | inr b ↦ cc (rw b at h)
]
  where
    some_injective : {a b : ℤ} → ◌≡◌ {A = Option ℤ} (some a) (some b) → a ≡ b
    some_injective e = cc

module _ (lib : Library) (script_sig : Bytes) where
  hathor_tx :
      (bytes : Bytes) (parsed : Option Transaction)
      → lib.deserialize_transaction bytes ≡ parsed
      → (elim parsed [
        | none ↦ false
        | some tx ↦ lib.is_coinbase tx && has_script tx.input script_sig
      ])
        ≡ true
      → IsHathorCoinbase lib script_sig (some bytes)
  hathor_tx bytes none e h = cc
  hathor_tx bytes (some tx) e h =
      let (coinbase, scripts) = and-true (lib.is_coinbase tx) _ h in
      let (first, rest, inputs, bound) = scripts_bound tx.input script_sig scripts in
      record {
        bytes = bytes;
        given = refl;
        tx = tx;
        parsed = e;
        is_coinbase = coinbase;
        first = first;
        rest = rest;
        inputs = inputs;
        bound = bound;
      }

  hathor_evidence_sound :
      (tx_bytes : Option Bytes)
      → hathor_evidence lib script_sig tx_bytes ≡ true
      → IsHathorCoinbase lib script_sig tx_bytes
  unfolding hathor_evidence
  hathor_evidence_sound none h = cc
  hathor_evidence_sound (some bytes) h = hathor_tx bytes (lib.deserialize_transaction bytes) refl h

  -- A strict height is given only for a chain of the list, at or above the height at which BIP34
  -- became active, and as `parse_bip34_height` reads it from the script; for Hathor only if the
  -- given bytes are a coinbase transaction whose first input has that script.
  pub strict_bip34_height_from_evidence_sound :
      (chain : String) (tx_bytes : Option Bytes) (height : ℤ)
      → strict_bip34_height_from_evidence lib chain script_sig tx_bytes ≡ some height
      → (is_strict_bip34_chain chain ≡ true)
        × (bip34_height ≤ℤ height)
        × (parse_bip34_height script_sig ≡ some height)
        × ((chain ≢ "hathor") ⊎ IsHathorCoinbase lib script_sig tx_bytes)
  unfolding strict_bip34_height_from_evidence
  strict_bip34_height_from_evidence_sound chain tx_bytes height h =
      by_tests (is_strict_bip34_chain chain) (same_text chain "hathor")
        (hathor_evidence lib script_sig tx_bytes) refl refl refl h
    where
      by_tests :
          (a b c : Bool)
          → is_strict_bip34_chain chain ≡ a
          → same_text chain "hathor" ≡ b
          → hathor_evidence lib script_sig tx_bytes ≡ c
          → (if not a
              then none
              else if b && not c
              then none
              else since_bip34 (parse_bip34_height script_sig))
            ≡ some height
          → (is_strict_bip34_chain chain ≡ true)
            × (bip34_height ≤ℤ height)
            × (parse_bip34_height script_sig ≡ some height)
            × ((chain ≢ "hathor") ⊎ IsHathorCoinbase lib script_sig tx_bytes)
      by_tests false b c ea eb ec k = cc
      by_tests true false c ea eb ec k =
          let (read, high) = since_bip34-some (parse_bip34_height script_sig) height k in
          (ea, high, read, inl (λ same. cc ((same_text_iff chain "hathor").1 same, eb)))
      by_tests true true false ea eb ec k = cc
      by_tests true true true ea eb ec k =
          let (read, high) = since_bip34-some (parse_bip34_height script_sig) height k in
          (ea, high, read, inr (hathor_evidence_sound tx_bytes ec))
