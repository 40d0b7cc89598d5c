-- ===== src/Nbits/Sorting.antt =====
-- The order of the epochs by time, and that the table's sort keeps every entry and puts them in order.
use merge_mining_monitor.Base.{
  All, Bool-cases, List, Option, [], ap, arith, false, get_elem?, inl, inr, some, suc, true, zero,
  ℕ, ◌↔◌, ◌∷◌, ◌≡◌, ◌⊎◌,
}
use merge_mining_monitor.Base.Int.{ℤ}
use merge_mining_monitor.Nbits.{insert_entry, leb_entry, sort_entries}

abbrev pub Entry : Type 0
Entry = ℤ × ℤ

pub leb_entry_trans :
    (a b c : Entry) → leb_entry a b ≡ true → leb_entry b c ≡ true → leb_entry a c ≡ true
leb_entry_trans (t, h) (t', h') (t'', h'') p q = ground arith

leb_entry-total : (a b : Entry) → leb_entry a b ≡ false → leb_entry b a ≡ true
leb_entry-total (t, h) (t', h') p = ground arith

pub leb_entry_refl : (a : Entry) → leb_entry a a ≡ true
leb_entry_refl (t, h) = ground arith

abbrev pub Sorted : List Entry → Type 0
Sorted [] = Unit {0}
Sorted (x ∷ xs) = All (λ y. leb_entry x y ≡ true) xs × Sorted xs

pub All-weaken :
    (P Q : Entry → Type 0) → ((e : Entry) → P e → Q e) → (xs : List Entry) → All P xs → All Q xs
All-weaken P Q f [] h = tt
All-weaken P Q f (x ∷ xs) h = (f x h.0, All-weaken P Q f xs h.1)

module _ (P : Entry → Type 0) where
  All-insert : (e : Entry) (xs : List Entry) → P e → All P xs → All P (insert_entry e xs)
  unfolding insert_entry
  All-insert e [] p h = (p, tt)
  All-insert e (x ∷ xs) p h = elim (Bool-cases (leb_entry e x)) [
    | inl b ↦ rw b (p, h)
    | inr b ↦ rw b (h.0, All-insert e xs p h.1)
  ]

  insert-All : (e : Entry) (xs : List Entry) → All P (insert_entry e xs) → P e × All P xs
  unfolding insert_entry
  insert-All e [] h = (h.0, tt)
  insert-All e (x ∷ xs) h = elim (Bool-cases (leb_entry e x)) [
    | inl b ↦ let k = rw b at h in (k.0, k.1)
    | inr b ↦ let k = rw b at h in let r = insert-All e xs k.1 in (r.0, (k.0, r.1))
  ]

  pub All-sort_entries : (xs : List Entry) → All P xs ↔ All P (sort_entries xs)
  unfolding sort_entries
  All-sort_entries [] = (λ h. h, λ h. h)
  All-sort_entries (x ∷ xs) = (
    λ h. All-insert x (sort_entries xs) h.0 ((All-sort_entries xs).0 h.1),
    λ h. let k = insert-All x (sort_entries xs) h in (k.0, (All-sort_entries xs).1 k.1),
  )

Sorted-insert : (e : Entry) (xs : List Entry) → Sorted xs → Sorted (insert_entry e xs)
unfolding insert_entry
Sorted-insert e [] s = (tt, tt)
Sorted-insert e (x ∷ xs) s = elim (Bool-cases (leb_entry e x)) [
  | inl b ↦ rw b (
    (
      b,
      All-weaken (λ y. leb_entry x y ≡ true) (λ y. leb_entry e y ≡ true)
          (λ y h. leb_entry_trans e x y b h) xs s.0,
    ),
    s,
  )
  | inr b ↦ rw b (
    All-insert (λ y. leb_entry x y ≡ true) e xs (leb_entry-total e x b) s.0,
    Sorted-insert e xs s.1,
  )
]

pub sort_entries-Sorted : (xs : List Entry) → Sorted (sort_entries xs)
unfolding sort_entries
sort_entries-Sorted [] = tt
sort_entries-Sorted (x ∷ xs) = Sorted-insert x (sort_entries xs) (sort_entries-Sorted xs)

-- `x` is one of the entries
abbrev pub IsMember : Entry → List Entry → Type 0
IsMember x xs = (i : ℕ) × (get_elem? xs i ≡ some x)

some_entry : {a b : Entry} → ◌≡◌ {A = Option Entry} (some a) (some b) → a ≡ b
some_entry e = cc

insert-IsMember :
    (x e : Entry) (xs : List Entry) (i : ℕ)
    → get_elem? (insert_entry e xs) i ≡ some x
    → (e ≡ x) ⊎ IsMember x xs
unfolding insert_entry
insert-IsMember x e [] zero h = inl (some_entry h)
insert-IsMember x e [] (suc i) h = cc
insert-IsMember x e (y ∷ ys) i h = elim (Bool-cases (leb_entry e y)) [
  | inl b ↦ first i (rw b at h)
  | inr b ↦ later (λ j k. insert-IsMember x e ys j k) i (rw b at h)
]
  where
    first : (i : ℕ) → get_elem? (e ∷ y ∷ ys) i ≡ some x → (e ≡ x) ⊎ IsMember x (y ∷ ys)
    first zero h = inl (some_entry h)
    first (suc i) h = inr (i, h)

    later :
        ((j : ℕ) → get_elem? (insert_entry e ys) j ≡ some x → (e ≡ x) ⊎ IsMember x ys)
        → (i : ℕ) → get_elem? (y ∷ insert_entry e ys) i ≡ some x
        → (e ≡ x) ⊎ IsMember x (y ∷ ys)
    later rest zero h = inr (0, h)
    later rest (suc i) h = elim (rest i h) [ inl same ↦ inl same | inr (j, k) ↦ inr (suc j, k) ]

pub sort_entries-IsMember :
    (x : Entry) (xs : List Entry) → IsMember x (sort_entries xs) → IsMember x xs
unfolding sort_entries
sort_entries-IsMember x [] h = h
sort_entries-IsMember x (y ∷ ys) (i, h) = elim (insert-IsMember x y (sort_entries ys) i h) [
  | inl same ↦ (0, ap some same)
  | inr m ↦ let (j, k) = sort_entries-IsMember x ys m in (suc j, k)
]
