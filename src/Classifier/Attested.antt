-- ===== src/Classifier/Attested.antt =====
-- What a verdict that Core attests rests on.
use merge_mining_monitor.Base.{
  Bool, Bool-cases, Option, Result, err, false, inl, inr, none, ok, refl, some, true, ◌&&◌, ◌>>=◌,
  ◌>>◌, ◌≡◌,
}
use merge_mining_monitor.Base.Int.{leb_ℤ, pos, ℤ, ◌+ℤ◌}
use merge_mining_monitor.Bitcoin.{Header, Library}
use merge_mining_monitor.Classifier.{
  BlockKind, ClassifiedHeader, ClassifyFault, Competitor, CoreHeaderSource, CoreHeaderStatus,
  KnownBlockContext, MtpCheck, ParentClassification, RpcFault, ancestor_missing,
  bits_match_expected, competitor_absent, competitor_found, competitor_unavailable,
  core_absence_unknown, incomplete_unknown, inferred_height_source, is_not_found, known_canonical,
  known_invalid, known_stale, known_unknown, mtp_unavailable, passes, tolerate,
}
use merge_mining_monitor.Classifier.Core.{
  beside_competitor, child_verdict, classify_inferred_stale,
  classify_inferred_stale_with_competitor, classify_invalid_block_child, fetch_competitor,
  median_time_past_passes, mtp_verdict,
}
use merge_mining_monitor.Classifier.Parent.{
  Setting, classify_absent, classify_core_unknown, core_height_to_i32, from_height,
  from_predecessor, from_prev_height, from_prev_status, ready_if,
}
use merge_mining_monitor.Nbits.{checked_i32}

-- whether a result is attested by Core
unfoldable pub attested : Result ClassifyFault ParentClassification → Bool
attested (ok verdict) = verdict.core_attested
attested (err fault) = false

attested->>= :
    {A : Type 0} (m : Result ClassifyFault A) (f : A → Result ClassifyFault ParentClassification)
    → ((a : A) → attested (f a) ≡ false)
    → attested (m >>= f) ≡ false
unfolding attested
attested->>= (ok a) f h = h a
attested->>= (err fault) f h = refl

-- a check behind a verdict, which it returns unchanged
attested_checked :
    (m : Result ClassifyFault ParentClassification)
    (check : ParentClassification → Result ClassifyFault (Unit {0}))
    → attested m ≡ false
    → attested (m >>= λ verdict. check verdict >> ok verdict) ≡ false
unfolding attested
attested_checked (ok verdict) check h = attested->>= (check verdict) (λ _. ok verdict) (λ _. h)
attested_checked (err fault) check h = refl

module _ (header : Header) where
  pub attested-tolerate :
      (fail : Bool) (fault : RpcFault)
      → attested (tolerate fail fault (incomplete_unknown header)) ≡ false
  unfolding attested
  attested-tolerate true fault = refl
  attested-tolerate false fault = refl

  attested-inferred :
      (height : ℤ) (predecessor : Option ClassifiedHeader) (kind : BlockKind)
      (competitor : ClassifiedHeader)
      → attested
          (classify_inferred_stale_with_competitor header height predecessor kind (some competitor))
        ≡ false
  unfolding attested classify_inferred_stale_with_competitor
  attested-inferred height predecessor kind competitor =
      elim (Bool-cases (bits_match_expected header competitor.header.bits)) [
        | inl b ↦ rw b (attested->>= (inferred_height_source kind) _ (λ _. refl))
        | inr b ↦ rw b refl
      ]

module _ (lib : Library) (source : CoreHeaderSource) (header : Header) (fail : Bool) where
  attested-mtp_verdict :
      (height : ℤ) (predecessor : Option ClassifiedHeader) (kind : BlockKind)
      (competitor : ClassifiedHeader) (check : MtpCheck)
      → attested (mtp_verdict lib source header height predecessor kind competitor check) ≡ false
  unfolding attested
  attested-mtp_verdict height predecessor kind competitor (passes true) =
      attested-inferred header height predecessor kind competitor
  attested-mtp_verdict height predecessor kind competitor (passes false) =
      attested->>= (inferred_height_source kind) _ (λ _. refl)
  attested-mtp_verdict height predecessor kind competitor ancestor_missing = refl
  attested-mtp_verdict height predecessor kind competitor mtp_unavailable = refl

  attested-beside :
      (height : ℤ) (predecessor : Option ClassifiedHeader) (kind : BlockKind)
      (competitor : Competitor)
      → attested (beside_competitor lib source header height predecessor kind fail competitor)
        ≡ false
  unfolding attested
  attested-beside height predecessor kind competitor_absent = refl
  attested-beside height predecessor kind competitor_unavailable = refl
  attested-beside height predecessor kind (competitor_found competitor) =
      elim (Bool-cases (bits_match_expected header competitor.header.bits)) [
        | inl b ↦ rw b (
            attested->>= (median_time_past_passes lib source header fail) _
              (attested-mtp_verdict height predecessor kind competitor))
        | inr b ↦ rw b refl
      ]

  attested-stale :
      (prev_height : ℤ) (predecessor : Option ClassifiedHeader) (kind : BlockKind)
      → attested (classify_inferred_stale lib source header prev_height predecessor kind fail)
        ≡ false
  unfolding attested classify_inferred_stale
  attested-stale prev_height predecessor kind = by_height (checked_i32 (prev_height +ℤ pos 1))
    where
      by_height :
          (next : Option ℤ)
          → attested (elim next [
            | none ↦ ok (core_absence_unknown header)
            | some height ↦
                fetch_competitor lib source height fail
                >>= beside_competitor lib source header height predecessor kind fail
          ])
            ≡ false
      by_height none = refl
      by_height (some height) =
          attested->>= (fetch_competitor lib source height fail) _
            (attested-beside height predecessor kind)

  attested-child_verdict :
      (competitor : Competitor) → (child_verdict lib source header competitor).core_attested ≡ false
  attested-child_verdict competitor_absent = refl
  attested-child_verdict competitor_unavailable = refl
  attested-child_verdict (competitor_found competitor) =
      elim (Bool-cases (bits_match_expected header competitor.header.bits)) [
        | inl b ↦ rw b refl
        | inr b ↦ rw b refl
      ]

  attested-child :
      (prev_height : ℤ)
      → attested (classify_invalid_block_child lib source header prev_height fail) ≡ false
  unfolding attested classify_invalid_block_child
  attested-child prev_height = by_height (checked_i32 (prev_height +ℤ pos 1))
    where
      by_height :
          (next : Option ℤ)
          → attested (elim next [
            | none ↦ ok (core_absence_unknown header)
            | some height ↦ fetch_competitor lib source height fail >>= λ competitor.
                ok (child_verdict lib source header competitor)
          ])
            ≡ false
      by_height none = refl
      by_height (some height) =
          attested->>= (fetch_competitor lib source height fail) _ attested-child_verdict

  attested-from_predecessor :
      (prev_height : ℤ) (answer : Result RpcFault ClassifiedHeader)
      → attested (from_predecessor lib source header fail prev_height answer) ≡ false
  attested-from_predecessor prev_height (ok predecessor) =
      attested-stale prev_height (some predecessor) known_canonical
  attested-from_predecessor prev_height (err fault) = attested-tolerate header fail fault

  attested-from_prev_height :
      (live : Bool) (prev_height : Option ℤ)
      → attested (from_prev_height lib source header live fail prev_height) ≡ false
  unfolding attested
  attested-from_prev_height true none = refl
  attested-from_prev_height false none = refl
  attested-from_prev_height live (some prev_height) =
      attested-from_predecessor prev_height (source.get_header header.prev_blockhash prev_height)

  attested-from_prev_status :
      (live : Bool) (answer : Result RpcFault CoreHeaderStatus)
      → attested (from_prev_status lib source header live fail answer) ≡ false
  unfolding attested
  attested-from_prev_status live (ok status) =
      elim (Bool-cases (leb_ℤ (pos 0) status.confirmations)) [
        | inl b ↦ rw b (attested-from_prev_height live (core_height_to_i32 status.height))
        | inr b ↦ rw b refl
      ]
  attested-from_prev_status live (err fault) = elim (Bool-cases (is_not_found fault)) [
    | inl b ↦ rw b refl
    | inr b ↦ rw b (attested-tolerate header fail fault)
  ]

  attested-from_height :
      (live : Bool) (kind : BlockKind) (prev_height : Option ℤ)
      → attested (from_height lib source header live fail kind prev_height) ≡ false
  attested-from_height live kind none =
      attested-from_prev_status live (source.get_header_verbose header.prev_blockhash)
  attested-from_height live known_canonical (some prev_height) =
      attested-stale prev_height none known_canonical
  attested-from_height live known_stale (some prev_height) =
      attested-stale prev_height none known_stale
  attested-from_height live known_invalid (some prev_height) = attested-child prev_height
  attested-from_height live known_unknown (some prev_height) =
      attested-from_prev_status live (source.get_header_verbose header.prev_blockhash)

  attested-core_unknown :
      (live : Bool) (known : Option KnownBlockContext)
      → attested (classify_core_unknown lib source header live known fail) ≡ false
  unfolding classify_core_unknown
  attested-core_unknown live none =
      attested-from_prev_status live (source.get_header_verbose header.prev_blockhash)
  attested-core_unknown live (some known) = attested-from_height live known.kind known.btc_height

  pub attested-absent :
      (setting : Setting) (preflight : Result ClassifyFault (Option KnownBlockContext))
      → attested (classify_absent lib source header setting fail preflight) ≡ false
  unfolding classify_absent
  attested-absent setting preflight =
      attested->>= (ready_if lib source setting.live setting.status_before setting.now) _ λ _.
        attested->>= preflight _ λ known.
          attested_checked (classify_core_unknown lib source header setting.live known fail)
            (λ verdict.
              ready_if lib source (setting.live && verdict.core_absence_attested)
                setting.status_after setting.now)
            (attested-core_unknown setting.live known)
