-- ===== src/Nbits/Time.antt =====
-- The epoch that a time selects.
use mathlib.Core.Path.{subst}
use merge_mining_monitor.Base.{
  All, Bool-cases, List, Option, Result, [], ap, arith, ensure-then, err, false, get_elem?, inl,
  inr, leb→le, map, ok, refl, some, suc, sym, true, ◌-◌, ◌∷◌, ◌≡◌,
}
use merge_mining_monitor.Base.Int.{eqb_ℤ, leb_ℤ, ltb_ℤ, pos, ℤ, ◌≤ℤ◌}
use merge_mining_monitor.Nbits.{
  BitcoinEpochHeader, CacheFault, NbitsTable, add_i32, chain, daa_epoch_interval,
  epoch_height_for_time, epoch_rows, from_bitcoin_core_headers_with_horizon_time, gap,
  horizon_exceeds, horizon_precedes, increases, last_or, latest_started, latest_time, leb_entry,
  next_epoch, not_genesis, sort_entries, started, table_of, time_entry, unordered, with_rows,
}
use merge_mining_monitor.Nbits.Sorting.{
  All-sort_entries, All-weaken, Entry, IsMember, Sorted, leb_entry_refl, leb_entry_trans,
  sort_entries-IsMember, sort_entries-Sorted,
}

abbrev Started : ℤ → Entry → Type 0
Started time e = leb_ℤ e.0 time ≡ true

-- `e` is the last of the entries, by time and then height, that start at or before `time`.
pub record IsLatest (entries : List Entry) (time : ℤ) (e : Entry) : Type 0 where
  pub started : e.0 ≤ℤ time
  pub member : IsMember e entries
  pub latest : All (λ x. x.0 ≤ℤ time → leb_entry x e ≡ true) entries

later_start :
    (time : ℤ) (y z : Entry) → leb_ℤ y.0 time ≡ false → leb_entry y z ≡ true → ¬ (z.0 ≤ℤ time)
later_start time (t, h) (t', h') late le k = ground arith

not_yet :
    (time : ℤ) (y : Entry) (e : Entry) (ys : List Entry)
    → leb_ℤ y.0 time ≡ false
    → All (λ z. leb_entry y z ≡ true) ys
    → All (λ x. x.0 ≤ℤ time → leb_entry x e ≡ true) ys
not_yet time y e ys late =
    All-weaken (λ z. leb_entry y z ≡ true) (λ x. x.0 ≤ℤ time → leb_entry x e ≡ true)
      (λ z le k. absurd (later_start time y z late le k)) ys

chosen :
    (time : ℤ) (x : Entry) (xs : List Entry)
    → Sorted (x ∷ xs)
    → leb_ℤ x.0 time ≡ true
    → (e : Entry) × (get_elem? (x ∷ xs) (started (x ∷ xs) time - 1) ≡ some e)
      × (leb_entry x e ≡ true)
      × (leb_ℤ e.0 time ≡ true)
      × All (λ y. y.0 ≤ℤ time → leb_entry y e ≡ true) (x ∷ xs)
unfolding started
chosen time x [] s h = (x, rw h refl, leb_entry_refl x, h, (λ _. leb_entry_refl x, tt))
chosen time x (y ∷ ys) s h = elim (Bool-cases (leb_ℤ y.0 time)) [
  | inl b ↦
      let (e, at, above, begun, l) = chosen time y ys s.1 b in
      let up = leb_entry_trans x y e s.0.0 above in
      let n = started ys time in
      let z1 : suc (suc n) - 1 ≡ suc n = omega arith in
      let z2 : suc n - 1 ≡ n = omega arith in
      (e, rw (h, b, z1) (rw (b, z2) at at), up, begun, (λ _. up, l))
  | inr b ↦ (
    x,
    rw (h, b) refl,
    leb_entry_refl x,
    h,
    (
      λ _. leb_entry_refl x,
      (λ k. absurd (later_start time y y b (leb_entry_refl y) k), not_yet time y x ys b s.1.0),
    ),
  )
]

-- what `latest_started` answers of sorted entries
latest_started_sound :
    (entries : List Entry) (time height : ℤ)
    → Sorted entries
    → latest_started entries time ≡ some height
    → (e : Entry) × (e.1 ≡ height) × IsLatest entries time e
unfolding latest_started
latest_started_sound [] time height s h = cc
latest_started_sound (x ∷ xs) time height s h = elim (Bool-cases (ltb_ℤ time x.0)) [
  | inl b ↦ cc (rw b at h)
  | inr b ↦
      let begun : leb_ℤ x.0 time ≡ true = ground arith in
      let (e, at, _, started_by, l) = chosen time x xs s begun in
      (
        e,
        some_height (rw (b, at) at h),
        record {
          started = leb→le _ _ started_by;
          member = (started (x ∷ xs) time - 1, at);
          latest = l;
        },
      )
]
  where
    some_height : {a b : ℤ} → ◌≡◌ {A = Option ℤ} (some a) (some b) → a ≡ b
    some_height e = cc

epochs_of : Result CacheFault NbitsTable → List Entry
epochs_of (ok t) = t.epochs_by_time
epochs_of (err e) = []

-- the entries of the rows of a table that was built
pub times_of :
    (headers : List BitcoinEpochHeader) (cached : ℤ) (table : NbitsTable)
    → from_bitcoin_core_headers_with_horizon_time headers cached ≡ ok table
    → table.epochs_by_time ≡ sort_entries (map time_entry (epoch_rows headers))
unfolding from_bitcoin_core_headers_with_horizon_time with_rows table_of epochs_of
times_of [] cached table h = cc
times_of (x ∷ xs) cached table h =
    by_rows (epoch_rows (x ∷ xs)) (ensure-then (chain increases x xs) unordered _ h).1
  where
    by_rows :
        (rows : List BitcoinEpochHeader)
        → with_rows cached (last_or x xs) (latest_time x.block_time xs) rows ≡ ok table
        → table.epochs_by_time ≡ sort_entries (map time_entry rows)
    by_rows [] k = cc
    by_rows (r ∷ rs) k =
        let (_, h1) = ensure-then (eqb_ℤ r.height (pos 0)) not_genesis _ k in
        let (_, h2) = ensure-then (chain next_epoch r rs) gap _ h1 in
        let last = last_or r rs in
        let (_, h3) = ensure-then (leb_ℤ last.height (last_or x xs).height) horizon_precedes _ h2 in
        let (_, h4) =
          ensure-then (ltb_ℤ (last_or x xs).height (add_i32 last.height daa_epoch_interval))
            horizon_exceeds _ h3 in
        ap epochs_of (sym h4)

-- In a table that the constructor returns, the epoch height that a time selects is that of the last
-- epoch row, by time and then height, whose header time is at or before it; a time past the horizon
-- selects none.
pub epoch_height_for_time_sound :
    (headers : List BitcoinEpochHeader) (cached_horizon_time : ℤ) (table : NbitsTable)
    (time height : ℤ)
    → from_bitcoin_core_headers_with_horizon_time headers cached_horizon_time ≡ ok table
    → epoch_height_for_time table time ≡ some height
    → (time ≤ℤ table.horizon_time)
      × ((start : ℤ) × IsLatest (map time_entry (epoch_rows headers)) time (start, height))
unfolding epoch_height_for_time
epoch_height_for_time_sound headers cached table time height built h =
    elim (Bool-cases (ltb_ℤ table.horizon_time time)) [
      | inl b ↦ cc (rw b at h)
      | inr b ↦
          let entries = map time_entry (epoch_rows headers) in
          let ((start, place), same, l) =
            latest_started_sound (sort_entries entries) time height (sort_entries-Sorted entries)
              (rw (b, times_of headers cached table built) at h) in
          (
            ground arith,
            (
              start,
              subst (λ k. IsLatest entries time (start, k)) same
                  (record {
                    started = l.started;
                    member = sort_entries-IsMember (start, place) entries l.member;
                    latest =
                        (All-sort_entries (λ x. x.0 ≤ℤ time → leb_entry x (start, place) ≡ true)
                            entries).1
                          l.latest;
                  }),
            ),
          )
    ]
