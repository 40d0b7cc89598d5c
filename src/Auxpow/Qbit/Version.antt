-- ===== src/Auxpow/Qbit/Version.antt =====
-- Which versions Qbit's rules accept.
use merge_mining_monitor.Auxpow.Qbit.{qbit_version_gate}
use merge_mining_monitor.Base.{
  arith, false, ok, true, ℕ, ◌%◌, ◌*◌, ◌+◌, ◌/◌, ◌<◌, ◌^◌, ◌↔◌, ◌≡◌, ◌≤◌, ◌⊎◌,
}

-- bits 8 to 31 of a merged version: 001 on top, chain id 47 at bit 13, and bit 8
abbrev pub merged_layout : ℕ
merged_layout = 2 ^ 21 + 47 * 2 ^ 5 + 1

-- The direct versions: below 256, or 001 on top with bits 8 to 12 clear; after genesis at least 4.
abbrev pub IsDirectVersion : ℕ → ℕ → Type 0
IsDirectVersion version height =
    ((height ≡ 0) ⊎ (4 ≤ version))
    × ((version < 256) ⊎ ((version / 2 ^ 29 ≡ 1) × (version / 2 ^ 8 % 2 ^ 5 ≡ 0)))

gate_true_sound :
    (version height : ℕ)
    → qbit_version_gate version height ≡ ok true
    → version / 2 ^ 8 ≡ merged_layout
unfolding qbit_version_gate
gate_true_sound version height h = ground arith

gate_true_complete :
    (version height : ℕ)
    → version / 2 ^ 8 ≡ merged_layout
    → qbit_version_gate version height ≡ ok true
unfolding qbit_version_gate
gate_true_complete version height h = ground arith

gate_false_sound :
    (version height : ℕ)
    → qbit_version_gate version height ≡ ok false
    → IsDirectVersion version height
unfolding qbit_version_gate
gate_false_sound version height h = ground arith

gate_false_complete :
    (version height : ℕ)
    → IsDirectVersion version height
    → qbit_version_gate version height ≡ ok false
unfolding qbit_version_gate
gate_false_complete version height h = ground arith

-- At every height the version gate reads a version as merge-mined exactly when its
-- bits 8 to 31 are the one layout with the bits 001 on top, chain id 47, bit 8 and clear reserved
-- bits, and as direct exactly when it is below 256, or has 001 on top and clear bits 8 to 12, and
-- after genesis is at least 4; every other version is an error.
pub qbit_version_gate_iff :
    (version height : ℕ)
    → ((qbit_version_gate version height ≡ ok true) ↔ (version / 2 ^ 8 ≡ merged_layout))
      × ((qbit_version_gate version height ≡ ok false) ↔ IsDirectVersion version height)
qbit_version_gate_iff version height = (
  (gate_true_sound version height, gate_true_complete version height),
  (gate_false_sound version height, gate_false_complete version height),
)
