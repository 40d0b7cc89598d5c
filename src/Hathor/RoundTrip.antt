-- ===== src/Hathor/RoundTrip.antt =====
-- crates/mmm-producers/src/chains/hathor/auxpow.rs: the proof read back from its bytes.
use mathlib.Core.List.{append-nil, append_assoc}
use merge_mining_monitor.Auxpow.Reader.RoundTrip.{IsHash, concat, encode_varint}
use merge_mining_monitor.Base.{
  All, Bool-cases, List, [], ap, arith, drop-append, inl, inr, length, length-append, le→leb, ltb,
  ltb→lt, ok, refl, sym, take-append, ℕ, ◌++◌, ◌<◌, ◌^◌, ◌∙◌, ◌∷◌, ◌≡◌, ◌≤◌,
}
use merge_mining_monitor.Base.Steps.{after}
use merge_mining_monitor.Base.Words.{Bytes, from_le-to_le, length-to_le, to_le}
use merge_mining_monitor.Hathor.{
  HathorAuxPow, Take, max_aux_pow_len, max_merkle_count, parse_fields, parse_hathor_aux_pow,
  read_varint, remaining, take_bytes, take_hashes, varint_behind, word_of,
}

-- `m` takes `a` from the bytes `chunk`, whatever follows
abbrev Takes : {A : Type 0} → Take A → Bytes → A → Type 0
Takes m chunk a = (rest : Bytes) → m (chunk ++ rest) ≡ (ok a, rest)

take_bytes-Takes : (n : ℕ) (chunk : Bytes) → length chunk ≡ n → Takes (take_bytes n) chunk chunk
unfolding take_bytes
take_bytes-Takes n chunk width rest = rw (
  sym width,
  le→leb (length chunk) (length (chunk ++ rest)) (omega (arith, length-append chunk rest)),
  take-append chunk rest,
  drop-append chunk rest,
)

take_whole : (n : ℕ) (chunk : Bytes) → length chunk ≡ n → take_bytes n chunk ≡ (ok chunk, [])
take_whole n chunk width =
    ap (take_bytes n) (sym (append-nil chunk)) ∙ take_bytes-Takes n chunk width []

word_of-Takes : (k n : ℕ) → n < 256 ^ k → Takes (word_of k) (to_le k n) n
unfolding word_of after
word_of-Takes k n h rest =
    rw (take_bytes-Takes k (to_le k n) (length-to_le k n) rest, from_le-to_le k n h)

first_byte : (first : ℕ) (rest : Bytes) → read_varint (first ∷ rest) ≡ varint_behind first rest
unfolding read_varint after
first_byte first rest = rw (take_bytes-Takes 1 (first ∷ []) refl rest)

varint_narrow : (n : ℕ) (rest : Bytes) → n < 0xfd → varint_behind n rest ≡ (ok n, rest)
unfolding varint_behind
varint_narrow n rest h = ground arith

read_varint-Takes : (n : ℕ) → n < 2 ^ 64 → Takes read_varint (encode_varint n) n
unfolding encode_varint varint_behind
read_varint-Takes n h rest = elim (Bool-cases (ltb n 0xfd)) [
  | inl a ↦ rw a (first_byte n rest ∙ varint_narrow n rest (ltb→lt _ _ a))
  | inr a ↦ rw a (elim (Bool-cases (ltb n (2 ^ 16))) [
    | inl b ↦ rw b (first_byte 0xfd _ ∙ word_of-Takes 2 n (ltb→lt n _ b) rest)
    | inr b ↦ rw b (elim (Bool-cases (ltb n (2 ^ 32))) [
      | inl c ↦ rw c (first_byte 0xfe _ ∙ word_of-Takes 4 n (ltb→lt n _ c) rest)
      | inr c ↦ rw c (first_byte 0xff _ ∙ word_of-Takes 8 n h rest)
    ])
  ])
]

take_hashes-Takes :
    (hashes : List Bytes)
    → All IsHash hashes
    → Takes (take_hashes (length hashes)) (concat hashes) hashes
unfolding take_hashes concat after
take_hashes-Takes [] h rest = refl
take_hashes-Takes (hash ∷ hashes) h rest = rw (
  append_assoc hash (concat hashes) rest,
  take_bytes-Takes 32 hash h.0 (concat hashes ++ rest),
  take_hashes-Takes hashes h.1 rest,
)

-- The bytes of a proof: each part behind its length, where the length is not fixed.
unfoldable pub encode_hathor_aux_pow : HathorAuxPow → Bytes
encode_hathor_aux_pow aux =
    aux.head_36
    ++ (encode_varint (length aux.cb_head)
        ++ (aux.cb_head
            ++ (encode_varint (length aux.cb_tail)
                ++ (aux.cb_tail
                    ++ (encode_varint (length aux.merkle_path)
                        ++ (concat aux.merkle_path ++ aux.tail_12))))))

-- a proof of the sizes that the code takes
pub record IsHathorAuxPow (aux : HathorAuxPow) : Type 0 where
  pub head_width : length aux.head_36 ≡ 36
  pub path_hashes : All IsHash aux.merkle_path
  pub path_depth : length aux.merkle_path ≤ max_merkle_count
  pub tail_width : length aux.tail_12 ≡ 12
  pub whole_size : length (encode_hathor_aux_pow aux) ≤ max_aux_pow_len

part_sizes :
    (aux : HathorAuxPow)
    → IsHathorAuxPow aux
    → (length aux.cb_head < 2 ^ 64) × (length aux.cb_tail < 2 ^ 64)
unfolding encode_hathor_aux_pow
part_sizes aux valid =
    let whole = valid.whole_size in
    let sizes =
      rw (length-append, length-append, length-append, length-append, length-append) at whole in
    (omega (arith, sizes), omega (arith, sizes))

-- A Hathor proof of at most 16384 bytes and 32 hashes, written as bytes, is parsed back to itself.
pub parse_hathor_aux_pow-encode :
    (aux : HathorAuxPow)
    → IsHathorAuxPow aux
    → parse_hathor_aux_pow (encode_hathor_aux_pow aux) ≡ ok aux
unfolding parse_hathor_aux_pow parse_fields encode_hathor_aux_pow after remaining
parse_hathor_aux_pow-encode aux valid =
    let (head_small, tail_small) = part_sizes aux valid in
    rw (
      le→leb _ max_aux_pow_len valid.whole_size,
      take_bytes-Takes 36 aux.head_36 valid.head_width _,
      read_varint-Takes (length aux.cb_head) head_small _,
      take_bytes-Takes (length aux.cb_head) aux.cb_head refl _,
      read_varint-Takes (length aux.cb_tail) tail_small _,
      take_bytes-Takes (length aux.cb_tail) aux.cb_tail refl _,
      read_varint-Takes (length aux.merkle_path) (omega (arith, valid.path_depth)) _,
      le→leb (length aux.merkle_path) max_merkle_count valid.path_depth,
      take_hashes-Takes aux.merkle_path valid.path_hashes _,
      take_whole 12 aux.tail_12 valid.tail_width,
    )
