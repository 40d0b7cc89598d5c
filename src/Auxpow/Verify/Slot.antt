-- ===== src/Auxpow/Verify/Slot.antt =====
-- The slot of a chain in the tree of chains.
use Prim.Native.Nat.{◌∣◌}
use mathlib.Core.Path.{subst}
use merge_mining_monitor.Auxpow.Verify.{auxpow_expected_index, wrapping_add, wrapping_mul}
use merge_mining_monitor.Base.{arith, suc, zero, ℕ, ◌%◌, ◌*◌, ◌+◌, ◌-◌, ◌<◌, ◌^◌, ◌≡◌, ◌≤◌}
use native.Mathlib.Nat.{
  dvd-mul_right_of_dvd, dvd_refl, mod-lt, mod-mod_of_dvd, pow-suc, suc-add, zero-add,
}

abbrev pub multiplier : ℕ
multiplier = 1_103_515_245

pow-dvd-pow : (k len : ℕ) → ◌∣◌ (2 ^ len) (2 ^ (k + len))
pow-dvd-pow zero len = rw zero-add (dvd_refl (2 ^ len))
pow-dvd-pow (suc k) len =
    rw (suc-add, pow-suc) (dvd-mul_right_of_dvd (2 ^ len) (pow-dvd-pow k len) 2)

word_of_len : (x len : ℕ) → len ≤ 32 → x % 2 ^ 32 % 2 ^ len ≡ x % 2 ^ len
word_of_len x len h =
    let e : (32 - len) + len ≡ 32 = omega arith in
    mod-mod_of_dvd (2 ^ len) x (subst (λ m. ◌∣◌ (2 ^ len) (2 ^ m)) e (pow-dvd-pow (32 - len) len))

pub pow_pos : (n : ℕ) → 0 < 2 ^ n
pow_pos zero = omega arith
pow_pos (suc n) = rw pow-suc (omega (arith, pow_pos n))

-- the two rounds as one linear form
two_rounds :
    (nonce chain_id : ℕ)
    → wrapping_add
        (wrapping_mul
          (wrapping_add (wrapping_add (wrapping_mul nonce multiplier) 12_345) chain_id)
          multiplier)
        12_345
      ≡ (multiplier * multiplier * nonce + multiplier * (12_345 + chain_id) + 12_345) % 2 ^ 32
two_rounds nonce chain_id = omega arith

-- For every nonce and chain id and every branch of at most 32 hashes, the slot is the linear form
-- a * a * nonce + a * (12345 + chain_id) + 12345, with a = 1103515245, modulo 2 ^ branch_len: the
-- wrap-around of the 32-bit steps does not show. So the slot lies in the tree.
pub auxpow_expected_index_linear :
    (nonce chain_id branch_len : ℕ)
    → branch_len ≤ 32
    → (auxpow_expected_index nonce chain_id branch_len
        ≡ (multiplier * multiplier * nonce + multiplier * (12_345 + chain_id) + 12_345)
          % 2 ^ branch_len)
      × (auxpow_expected_index nonce chain_id branch_len < 2 ^ branch_len)
unfolding auxpow_expected_index
auxpow_expected_index_linear nonce chain_id branch_len h =
    (rw two_rounds (word_of_len _ branch_len h), mod-lt _ (pow_pos branch_len))
