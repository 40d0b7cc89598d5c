-- ===== src/Auxpow/Reader/RoundTrip.antt =====
-- Reading back what was written: each reader, placed before the bytes that encode a value, returns
-- the value and stops behind them.
use mathlib.Core.List.{append-nil, append_assoc}
use merge_mining_monitor.Auxpow.{Fault}
use merge_mining_monitor.Auxpow.Reader.{
  Read, Reader, pure, read_array, read_hashes, read_i32, read_slice, read_u8, read_varint,
  read_varint_rest, usize_limit, ◌>>=◌,
}
use merge_mining_monitor.Base.{
  All, Bool-cases, List, Result, [], ap, arith, drop, drop-append, drop-drop, err, get_or,
  if◌then◌else◌, inl, inr, length, length-append, length-drop, le→leb, ltb, ltb→lt, lt→ltb, ok,
  refl, sym, take-append, ℕ, ◌*◌, ◌++◌, ◌+◌, ◌-◌, ◌<◌, ◌^◌, ◌∙◌, ◌∷◌, ◌≡◌, ◌≤◌,
}
use merge_mining_monitor.Base.Words.{Bytes, as_i32, from_le, from_le-to_le, length-to_le, to_le}

-- `m` reads `a` from the bytes `chunk`, wherever they stand and whatever follows.
pub record Reads {A : Type 0} (m : Read A) (chunk : Bytes) (a : A) : Type 0 where
  pub at :
      (buf : Bytes) (p : ℕ) (rest : Bytes)
      → p ≤ length buf
      → length buf < usize_limit
      → drop p buf ≡ chunk ++ rest
      → m (record { buf = buf; pos = p }) ≡ ok (a, record { buf = buf; pos = p + length chunk })

module _ {A : Type 0} where
  pub Reads-pure : (a : A) → Reads (pure a) [] a
  Reads-pure a = record { at = λ buf p rest hp hl e. let z : p + 0 ≡ p = omega arith in rw z }

  pub Reads-nil : (m : Read A) (chunk : Bytes) (a : A) → Reads m (chunk ++ []) a → Reads m chunk a
  Reads-nil m chunk a h = rw append-nil at h

module _ {A B : Type 0} where
  bind_ok :
      (m : Read A) (f : A → Read B) (r : Reader) {a : A} {s : Reader}
      → m r ≡ ok (a, s)
      → (m >>= f) r ≡ f a s
  bind_ok m f r e =
      ap (λ (x : Result Fault (A × Reader)). elim x [ ok (a, s) ↦ f a s | err x ↦ err x ]) e

  -- One reader after another reads one encoding after another.
  pub Reads-bind :
      (m : Read A) (f : A → Read B) (c d : Bytes) (a : A) (b : B)
      → Reads m c a
      → Reads (f a) d b
      → Reads (m >>= f) (c ++ d) b
  Reads-bind m f c d a b hm hf = record {
    at = λ buf p rest hp hl e.
        let e1 : drop p buf ≡ c ++ (d ++ rest) = e ∙ append_assoc c d rest in
        let len : length (c ++ (d ++ rest)) ≡ length buf - p =
          ap length (sym e1) ∙ length-drop p buf in
        let e2 : drop (p + length c) buf ≡ d ++ rest =
          sym (drop-drop (length c) p buf) ∙ ap (drop (length c)) e1 ∙ drop-append c (d ++ rest) in
        let hp' : p + length c ≤ length buf = omega (arith, len, length-append c (d ++ rest)) in
        let z : p + length (c ++ d) ≡ p + length c + length d = omega (arith, length-append c d) in
        bind_ok m f _ (hm.at buf p (d ++ rest) hp hl e1)
        ∙ rw z (hf.at buf (p + length c) rest hp' hl e2);
  }

pub read_slice-Reads : (chunk : Bytes) → Reads (read_slice (length chunk)) chunk chunk
unfolding read_slice
read_slice-Reads chunk = record {
  at = λ buf p rest hp hl e.
      let len : length (chunk ++ rest) ≡ length buf - p = ap length (sym e) ∙ length-drop p buf in
      let inside : p + length chunk ≤ length buf = omega (arith, len, length-append chunk rest) in
      rw (lt→ltb (p + length chunk) usize_limit (omega arith), le→leb _ _ inside, e, take-append);
}

-- a single little-endian word after which nothing is left to read
module _ (k n : ℕ) where
  word-Reads : Reads (read_slice k) (to_le k n) (to_le k n)
  word-Reads = rw (length-to_le k n) at (read_slice-Reads (to_le k n))

pub read_array-Reads : (n : ℕ) (chunk : Bytes) → length chunk ≡ n → Reads (read_array n) chunk chunk
unfolding read_array
read_array-Reads n chunk e = rw e at (read_slice-Reads chunk)

pub read_i32-Reads : (w : ℕ) → w < 2 ^ 32 → Reads read_i32 (to_le 4 w) (as_i32 w)
unfolding read_i32
read_i32-Reads w h = Reads-nil _ _ _ (
    Reads-bind (read_array 4) _ (to_le 4 w) [] (to_le 4 w) (as_i32 w) (word-Reads 4 w)
      (rw (from_le-to_le 4 w h) (Reads-pure (as_i32 w))))

-- Bitcoin's CompactSize: a first byte below 0xfd is the number, and else says how wide the number is.
unfoldable pub encode_varint : ℕ → Bytes
encode_varint n =
    if ltb n 0xfd
    then n ∷ []
    else if ltb n (2 ^ 16)
    then 0xfd ∷ to_le 2 n
    else if ltb n (2 ^ 32)
    then 0xfe ∷ to_le 4 n
    else 0xff ∷ to_le 8 n

read_u8-Reads : (b : ℕ) → Reads read_u8 (b ∷ []) b
unfolding read_u8
read_u8-Reads b =
    Reads-bind (read_array 1) (λ bytes. pure (get_or bytes 0 0)) (b ∷ []) [] (b ∷ []) b
      (read_slice-Reads (b ∷ [])) (Reads-pure b)

-- a word of `k` bytes behind `f`
wide-Reads :
    (k n : ℕ) → n < 256 ^ k → Reads (read_slice k >>= λ bytes. pure (from_le bytes)) (to_le k n) n
wide-Reads k n h = Reads-nil _ _ _ (
    Reads-bind (read_slice k) _ (to_le k n) [] (to_le k n) n (word-Reads k n)
      (rw (from_le-to_le k n h) (Reads-pure n)))

varint_rest-Reads :
    (first n : ℕ) (k : ℕ)
    → n < 256 ^ k
    → read_varint_rest first ≡ (read_slice k >>= λ bytes. pure (from_le bytes))
    → Reads (read_varint_rest first) (to_le k n) n
varint_rest-Reads first n k h e = rw e (wide-Reads k n h)

read_varint-wide :
    (first n k : ℕ)
    → n < 256 ^ k
    → read_varint_rest first ≡ (read_slice k >>= λ bytes. pure (from_le bytes))
    → Reads read_varint (first ∷ to_le k n) n
unfolding read_varint
read_varint-wide first n k h e =
    Reads-bind read_u8 read_varint_rest (first ∷ []) (to_le k n) first n (read_u8-Reads first)
      (varint_rest-Reads first n k h e)

read_varint-narrow : (n : ℕ) → n < 0xfd → Reads read_varint (n ∷ []) n
unfolding read_varint read_varint_rest
read_varint-narrow n h =
    Reads-bind read_u8 read_varint_rest (n ∷ []) [] n n (read_u8-Reads n)
      (rw (le→leb n 0xfc (omega arith)) (Reads-pure n))

-- For every u64, `read_varint` placed before the number's CompactSize encoding returns the number
-- and stops behind the encoding, wherever that stands in a buffer of at most 2^64 - 1 bytes and
-- whatever follows it.
pub read_varint-encode_varint : (n : ℕ) → n < 2 ^ 64 → Reads read_varint (encode_varint n) n
unfolding encode_varint read_varint_rest
read_varint-encode_varint n h = elim (Bool-cases (ltb n 0xfd)) [
  | inl a ↦ rw a (read_varint-narrow n (ltb→lt _ _ a))
  | inr a ↦ rw a (elim (Bool-cases (ltb n (2 ^ 16))) [
    | inl b ↦ rw b (read_varint-wide 0xfd n 2 (ltb→lt n _ b) refl)
    | inr b ↦ rw b (elim (Bool-cases (ltb n (2 ^ 32))) [
      | inl c ↦ rw c (read_varint-wide 0xfe n 4 (ltb→lt n _ c) refl)
      | inr c ↦ rw c (read_varint-wide 0xff n 8 h refl)
    ])
  ])
]

-- The bytes of a merkle branch: the number of hashes, and the hashes one after the other.
unfoldable pub concat : List Bytes → Bytes
concat [] = []
concat (hash ∷ hashes) = hash ++ concat hashes

abbrev pub IsHash : Bytes → Type 0
IsHash hash = length hash ≡ 32

pub read_hashes-concat :
    (hashes : List Bytes)
    → All IsHash hashes
    → Reads (read_hashes (length hashes)) (concat hashes) hashes
unfolding read_hashes concat
read_hashes-concat [] h = Reads-pure []
read_hashes-concat (hash ∷ hashes) h =
    Reads-bind (read_array 32) _ hash (concat hashes) hash (hash ∷ hashes)
      (read_array-Reads 32 hash h.0)
      (Reads-nil _ _ _ (
        Reads-bind (read_hashes (length hashes)) _ (concat hashes) [] hashes (hash ∷ hashes)
          (read_hashes-concat hashes h.1) (Reads-pure (hash ∷ hashes))))

pub length-concat :
    (hashes : List Bytes) → All IsHash hashes → length (concat hashes) ≡ 32 * length hashes
unfolding concat
length-concat [] h = omega arith
length-concat (hash ∷ hashes) h =
    omega (arith, length-append hash (concat hashes), length-concat hashes h.1, h.0)
