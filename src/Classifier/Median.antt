-- ===== src/Classifier/Median.antt =====
-- The median time past: what the walk over the ancestors and the median of their times say.
pub mod Order
use merge_mining_monitor.Classifier.Median.Order.{
  count_before, count_before-sort_times, entry_before, length-sort_times, sort_times-Ordered,
}
use merge_mining_monitor.Base.{
  >>=-eq-ok, Bool, List, Result, [], ap, arith, bytes_eq, bytes_eq_sound, ensure, ensure-then, err,
  false, get_or, if◌then◌else◌, length, ltb, ltb→lt, lt→ltb, map, ok, refl, suc, sym, true, zero, ℕ,
  ◌>>=◌, ◌>>◌, ◌↔◌, ◌∙◌, ◌∷◌, ◌≡◌, ◌≤◌,
}
use merge_mining_monitor.Base.Words.{Bytes}
use merge_mining_monitor.Bitcoin.{Header, Library}
use merge_mining_monitor.Classifier.{
  ClassifyFault, CoreHeaderSource, MtpCheck, RpcFault, body_pruned, height_out_of_range,
  is_not_found, not_found, passes, sort_times, tolerate, transport, wrong_ancestor,
}
use merge_mining_monitor.Classifier.Core.{
  Ancestors, ancestors, gathered, median_time_past_passes, missing_ancestor, mtp_of, mtp_window,
  prepend_time, unavailable_ancestor,
}

-- `headers` is the chain that Core answers from `expected` on, each header under its own hash.
abbrev pub Linked : Library → CoreHeaderSource → Bytes → List Header → Type 0
Linked lib source expected [] = Unit {0}
Linked lib source expected (header ∷ headers) =
    (source.get_block_header expected ≡ ok header)
    × (lib.block_hash header ≡ expected)
    × Linked lib source header.prev_blockhash headers

abbrev pub time_of : Header → ℕ
time_of header = header.time

length-map_times : (headers : List Header) → length (map time_of headers) ≡ length headers
length-map_times [] = refl
length-map_times (h ∷ hs) = ap suc (length-map_times hs)

gathered_times : Result ClassifyFault Ancestors → List ℕ
gathered_times (ok (gathered times)) = times
gathered_times (ok missing_ancestor) = []
gathered_times (ok unavailable_ancestor) = []
gathered_times (err fault) = []

-- a walk that gathered something began with the time in front
prepend-eq-gathered :
    (time : ℕ) (rest : Ancestors) (times : List ℕ)
    → ◌≡◌ {A = Result ClassifyFault Ancestors} (ok (prepend_time time rest)) (ok (gathered times))
    → (later : List ℕ) × (rest ≡ gathered later) × (time ∷ later ≡ times)
unfolding gathered_times
prepend-eq-gathered time (gathered later) times h = (later, refl, ap gathered_times h)
prepend-eq-gathered time missing_ancestor times h = cc
prepend-eq-gathered time unavailable_ancestor times h = cc

not_tolerated :
    (fail : Bool) (fault : RpcFault) (times : List ℕ)
    → ¬ (
        (if is_not_found fault
          then ok missing_ancestor
          else tolerate fail fault unavailable_ancestor)
        ≡ ok (gathered times))
not_tolerated true not_found times h = cc
not_tolerated false not_found times h = cc
not_tolerated true height_out_of_range times h = cc
not_tolerated false height_out_of_range times h = cc
not_tolerated true body_pruned times h = cc
not_tolerated false body_pruned times h = cc
not_tolerated true transport times h = cc
not_tolerated false transport times h = cc

module _ (lib : Library) (source : CoreHeaderSource) (fail : Bool) where
  -- the walk of one ancestor and of those behind it
  abbrev step : ℕ → Bytes → Result RpcFault Header → Result ClassifyFault Ancestors
  step n expected answer = elim answer [
    | err fault ↦
        if is_not_found fault then ok missing_ancestor else tolerate fail fault unavailable_ancestor
    | ok header ↦
        ensure (bytes_eq (lib.block_hash header) expected) wrong_ancestor
        >> (ancestors lib source fail n header.prev_blockhash >>= λ rest.
            ok (prepend_time header.time rest))
  ]

  abbrev Walked : ℕ → Bytes → List ℕ → Type 0
  Walked n expected times =
      (headers : List Header) × (length headers ≡ n)
      × Linked lib source expected headers
      × (map time_of headers ≡ times)

  step_sound :
      (n : ℕ) (expected : Bytes) (times : List ℕ) (answer : Result RpcFault Header)
      → source.get_block_header expected ≡ answer
      → ((next : Bytes) (later : List ℕ)
          → ancestors lib source fail n next ≡ ok (gathered later)
          → Walked n next later)
      → step n expected answer ≡ ok (gathered times)
      → Walked (suc n) expected times
  step_sound n expected times (err fault) e below h = absurd (not_tolerated fail fault times h)
  step_sound n expected times (ok header) e below h =
      let (same, h1) = ensure-then (bytes_eq (lib.block_hash header) expected) wrong_ancestor _ h in
      let (rest, walk, h2) = >>=-eq-ok (ancestors lib source fail n header.prev_blockhash) _ h1 in
      let (later, is_later, all) = prepend-eq-gathered header.time rest times h2 in
      let (headers, len, linked, same_times) =
        below header.prev_blockhash later (walk ∙ ap ok is_later) in
      (
        header ∷ headers,
        ap suc len,
        (e, bytes_eq_sound _ _ same, linked),
        ap (λ xs. header.time ∷ xs) same_times ∙ all,
      )

  ancestors_sound :
      (n : ℕ) (expected : Bytes) (times : List ℕ)
      → ancestors lib source fail n expected ≡ ok (gathered times)
      → Walked n expected times
  unfolding ancestors gathered_times
  ancestors_sound zero expected times h = ([], refl, tt, ap gathered_times h)
  ancestors_sound (suc n) expected times h =
      step_sound n expected times (source.get_block_header expected) refl
        (λ next later. ancestors_sound n next later) h

  mtp-passes :
      (candidate : Header) (walked : Ancestors) (b : Bool)
      → ◌≡◌ {A = Result ClassifyFault MtpCheck} (ok (mtp_of candidate walked)) (ok (passes b))
      → (times : List ℕ) × (walked ≡ gathered times)
        × (ltb (get_or (sort_times times) 5 0) candidate.time ≡ b)
  mtp-passes candidate (gathered times) b h = (times, refl, passes_injective h)
    where
      passes_injective :
          {a b : Bool}
          → ◌≡◌ {A = Result ClassifyFault MtpCheck} (ok (passes a)) (ok (passes b))
          → a ≡ b
      passes_injective e = cc
  mtp-passes candidate missing_ancestor b h = cc
  mtp-passes candidate unavailable_ancestor b h = cc

  -- The median check answers only from eleven headers that Core gave, linked from the candidate's
  -- declared predecessor and each under its own hash, and it passes exactly when the candidate's time
  -- is later than at least six of their times, that is, than their median.
  pub median_time_past_passes_sound :
      (candidate : Header) (b : Bool)
      → median_time_past_passes lib source candidate fail ≡ ok (passes b)
      → (headers : List Header) × (length headers ≡ 11)
        × Linked lib source candidate.prev_blockhash headers
        × ((b ≡ true) ↔ (6 ≤ count_before candidate.time (map time_of headers)))
  unfolding median_time_past_passes
  median_time_past_passes_sound candidate b h =
      let (walked, walk, h1) =
        >>=-eq-ok (ancestors lib source fail mtp_window candidate.prev_blockhash) _ h in
      let (times, is_times, test) = mtp-passes candidate walked b h1 in
      let (headers, len, linked, same) =
        ancestors_sound mtp_window candidate.prev_blockhash times (walk ∙ ap ok is_times) in
      let enough : length times ≡ 11 = ap length (sym same) ∙ length-map_times headers ∙ len in
      let e =
        entry_before candidate.time 5 (sort_times times) (sort_times-Ordered times)
          (omega (arith, length-sort_times times)) in
      let c = count_before-sort_times candidate.time times in
      (
        headers,
        len,
        linked,
        (
          λ yes. rw same (omega (arith, c, e.0 (ltb→lt _ _ (test ∙ yes)))),
          λ six. sym test ∙ lt→ltb _ _ (e.1 (omega (arith, c, rw same at six))),
        ),
      )
