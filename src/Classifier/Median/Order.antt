-- ===== src/Classifier/Median/Order.antt =====
-- The median of a sorted list, by counting.
use merge_mining_monitor.Base.{
  All, Bool-cases, List, [], ap, arith, false, get_or, if◌then◌else◌, inl, inr, leb, leb→le, length,
  ltb, ltb→lt, refl, suc, true, zero, ℕ, ◌<◌, ◌↔◌, ◌∙◌, ◌∷◌, ◌≡◌, ◌≤◌, ◌⊎◌,
}
use merge_mining_monitor.Classifier.{insert_time, sort_times}

-- how many of the times lie before `t`
unfoldable pub count_before : ℕ → List ℕ → ℕ
count_before t [] = 0
count_before t (x ∷ xs) = if ltb x t then suc (count_before t xs) else count_before t xs

abbrev pub Ordered : List ℕ → Type 0
Ordered [] = Unit {0}
Ordered (x ∷ xs) = All (λ y. x ≤ y) xs × Ordered xs

All-le_trans : (a b : ℕ) (xs : List ℕ) → a ≤ b → All (λ y. b ≤ y) xs → All (λ y. a ≤ y) xs
All-le_trans a b [] h k = tt
All-le_trans a b (x ∷ xs) h k = (omega (arith, k.0), All-le_trans a b xs h k.1)

All-insert_time :
    (a t : ℕ) (xs : List ℕ) → a ≤ t → All (λ y. a ≤ y) xs → All (λ y. a ≤ y) (insert_time t xs)
unfolding insert_time
All-insert_time a t [] h k = (h, tt)
All-insert_time a t (x ∷ xs) h k = elim (Bool-cases (leb t x)) [
  | inl b ↦ rw b (h, k)
  | inr b ↦ rw b (k.0, All-insert_time a t xs h k.1)
]

Ordered-insert_time : (t : ℕ) (xs : List ℕ) → Ordered xs → Ordered (insert_time t xs)
unfolding insert_time
Ordered-insert_time t [] s = (tt, tt)
Ordered-insert_time t (x ∷ xs) s = elim (Bool-cases (leb t x)) [
  | inl b ↦ let le : t ≤ x = leb→le _ _ b in rw b ((le, All-le_trans t x xs le s.0), s)
  | inr b ↦
      let le : x ≤ t = ground arith in
      rw b (All-insert_time x t xs le s.0, Ordered-insert_time t xs s.1)
]

pub sort_times-Ordered : (xs : List ℕ) → Ordered (sort_times xs)
unfolding sort_times
sort_times-Ordered [] = tt
sort_times-Ordered (x ∷ xs) = Ordered-insert_time x (sort_times xs) (sort_times-Ordered xs)

count_before-insert_time :
    (t x : ℕ) (xs : List ℕ) → count_before t (insert_time x xs) ≡ count_before t (x ∷ xs)
unfolding insert_time count_before
count_before-insert_time t x [] = refl
count_before-insert_time t x (y ∷ ys) = ground (arith, count_before-insert_time t x ys)

length-insert_time : (x : ℕ) (xs : List ℕ) → length (insert_time x xs) ≡ suc (length xs)
unfolding insert_time
length-insert_time x [] = refl
length-insert_time x (y ∷ ys) = ground (arith, length-insert_time x ys)

pub count_before-sort_times :
    (t : ℕ) (xs : List ℕ) → count_before t (sort_times xs) ≡ count_before t xs
unfolding sort_times count_before
count_before-sort_times t [] = refl
count_before-sort_times t (x ∷ xs) =
    count_before-insert_time t x (sort_times xs)
    ∙ ap (λ (n : ℕ). if ltb x t then suc n else n) (count_before-sort_times t xs)

pub length-sort_times : (xs : List ℕ) → length (sort_times xs) ≡ length xs
unfolding sort_times
length-sort_times [] = refl
length-sort_times (x ∷ xs) = length-insert_time x (sort_times xs) ∙ ap suc (length-sort_times xs)

-- no time of an ordered list lies before its first
none_before : (t x : ℕ) (xs : List ℕ) → t ≤ x → All (λ y. x ≤ y) xs → count_before t xs ≡ 0
unfolding count_before
none_before t x [] h k = refl
none_before t x (y ∷ ys) h k = ground (arith, none_before t x ys h k.1, k.0)

-- In an ordered list the entry at `k` lies before `t` exactly when more than `k` entries do.
pub entry_before :
    (t k : ℕ) (xs : List ℕ)
    → Ordered xs
    → k < length xs
    → (get_or xs k 0 < t) ↔ (k < count_before t xs)
unfolding count_before
entry_before t k [] s h = absurd (omega arith)
entry_before t zero (x ∷ xs) s h = (λ lt. ground arith, λ lt. first (Bool-cases (ltb x t)) lt)
  where
    first :
        (ltb x t ≡ true) ⊎ (ltb x t ≡ false)
        → 0 < (if ltb x t then suc (count_before t xs) else count_before t xs)
        → x < t
    first (inl b) lt = ltb→lt _ _ b
    first (inr b) lt = absurd (omega (arith, none_before t x xs (ground arith) s.0, rw b at lt))
entry_before t (suc k) (x ∷ xs) s h =
    later (Bool-cases (ltb x t)) (entry_before t k xs s.1 (omega arith))
  where
    entry_at_least :
        (y k : ℕ) (ys : List ℕ) → All (λ z. y ≤ z) ys → k < length ys → y ≤ get_or ys k 0
    entry_at_least y k [] a lt = absurd (omega arith)
    entry_at_least y zero (z ∷ zs) a lt = a.0
    entry_at_least y (suc k) (z ∷ zs) a lt = entry_at_least y k zs a.1 (omega arith)

    later :
        (ltb x t ≡ true) ⊎ (ltb x t ≡ false)
        → (get_or xs k 0 < t) ↔ (k < count_before t xs)
        → (get_or xs k 0 < t)
          ↔ (suc k < (if ltb x t then suc (count_before t xs) else count_before t xs))
    later (inl b) e = rw b (λ lt. omega (arith, e.0 lt), λ lt. e.1 (omega arith))
    later (inr b) e = rw b (
      λ lt. absurd (ground (arith, entry_at_least x k xs s.0 (omega arith))),
      λ lt. absurd (omega (arith, none_before t x xs (ground arith) s.0)),
    )
