-- ===== src/Classifier/Absence.antt =====
-- What a verdict that attests a header's absence rests on.
use merge_mining_monitor.Base.{
  >>=-eq-ok, Bool, Bool-cases, Option, Result, ap, arith, bytes_eq, ensure-eq-ok, ensure-then, err,
  false, inl, inr, leb→le, none, not, ok, refl, some, then-eq-ok, true, ◌&&◌, ◌>>=◌, ◌||◌, ◌∙◌, ◌≡◌,
  ◌⊎◌,
}
use merge_mining_monitor.Base.Int.{eqb_ℤ, leb_ℤ, pos, ℤ, ◌-ℤ◌, ◌≤ℤ◌}
use merge_mining_monitor.Bitcoin.{Header, Library}
use merge_mining_monitor.Classifier.{
  BlockCoinbase, ChainStatus, ClassifiedHeader, ClassifyFault, Competitor, CoreHeaderSource,
  CoreHeaderStatus, KnownBlockContext, ParentClassification, RpcFault, body_pruned,
  competitor_absent, competitor_found, competitor_unavailable, header_lag, height_out_of_range,
  incomplete_unknown, initial_block_download, is_not_found, not_found, ready_tip, tolerate,
  transport, wrong_network,
}
use merge_mining_monitor.Classifier.Attested.{attested}
use merge_mining_monitor.Classifier.Core.{
  classify_core_stale_header, fetch_competitor, fetched, live_coinbase_fetch,
}
use merge_mining_monitor.Classifier.Parent.{
  Setting, at_height, classify_absent, classify_core_unknown, classify_parent_deferred_with_policy,
  core_height_to_i32, from_status, indexed_verdict, ready_if, stale_verdict,
}

-- A synced mainnet tip whose median time is at most a day old.
pub record IsReady (status : ChainStatus) (now : ℤ) : Type 0 where
  pub mainnet : status.is_mainnet ≡ true
  pub downloaded : status.initial_block_download ≡ false
  pub synced : status.blocks ≡ status.headers
  pub fresh : now -ℤ status.median_time ≤ℤ pos 86_400

not-eq-true : (b : Bool) → not b ≡ true → b ≡ false
not-eq-true true h = cc
not-eq-true false h = refl

same_height : (a b : ℤ) → eqb_ℤ a b ≡ true → a ≡ b
same_height a b h = ground arith

pub ready_tip_sound :
    (status : ChainStatus) (now : ℤ) → ready_tip status now ≡ ok tt → IsReady status now
unfolding ready_tip
ready_tip_sound status now h =
    let (mainnet, h1) = ensure-then status.is_mainnet wrong_network _ h in
    let (downloaded, h2) =
      ensure-then (not status.initial_block_download) initial_block_download _ h1 in
    let (synced, h3) = ensure-then (eqb_ℤ status.blocks status.headers) header_lag _ h2 in
    record {
      mainnet = mainnet;
      downloaded = not-eq-true _ downloaded;
      synced = same_height _ _ synced;
      fresh = leb→le _ _ (ensure-eq-ok _ _ h3);
    }

-- whether a result attests an absence
absence : Result ClassifyFault ParentClassification → Bool
absence (ok verdict) = verdict.core_absence_attested
absence (err fault) = false

absence->>= :
    {A : Type 0} (m : Result ClassifyFault A) (f : A → Result ClassifyFault ParentClassification)
    → ((a : A) → absence (f a) ≡ false)
    → absence (m >>= f) ≡ false
unfolding absence
absence->>= (ok a) f h = h a
absence->>= (err fault) f h = refl

absence-tolerate :
    (fail : Bool) (fault : RpcFault) (header : Header)
    → absence (tolerate fail fault (incomplete_unknown header)) ≡ false
unfolding absence
absence-tolerate true fault header = refl
absence-tolerate false fault header = refl

is_not_found-true : (fault : RpcFault) → is_not_found fault ≡ true → fault ≡ not_found
is_not_found-true not_found h = refl
is_not_found-true height_out_of_range h = cc
is_not_found-true body_pruned h = cc
is_not_found-true transport h = cc

ready_if-true :
    (lib : Library) (source : CoreHeaderSource) (b : Bool) (status : ChainStatus) (now : ℤ)
    → b ≡ true
    → ready_if lib source b status now ≡ ok tt
    → ready_tip status now ≡ ok tt
ready_if-true lib source true status now e h = h
ready_if-true lib source false status now e h = cc

module _ (lib : Library) (source : CoreHeaderSource) (header : Header) where
  absence-stale_header :
      (height : ℤ) (competitor : ClassifiedHeader) (coinbase : Option BlockCoinbase)
      → (classify_core_stale_header lib header height
          (some competitor)
          coinbase).core_absence_attested
        ≡ false
  unfolding classify_core_stale_header
  absence-stale_header height competitor coinbase =
      elim (Bool-cases (bytes_eq competitor.hash (lib.block_hash header))) [
        | inl b ↦ rw b refl
        | inr b ↦ rw b refl
      ]

  absence-stale_verdict :
      (height : ℤ) (coinbase : Option BlockCoinbase) (unavailable : Bool) (competitor : Competitor)
      → absence (ok (stale_verdict lib source header height coinbase unavailable competitor))
        ≡ false
  unfolding absence classify_core_stale_header
  absence-stale_verdict height coinbase unavailable (competitor_found competitor) =
      absence-stale_header height competitor coinbase
  absence-stale_verdict height coinbase unavailable competitor_absent = refl
  absence-stale_verdict height coinbase unavailable competitor_unavailable = refl

  absence-indexed_verdict :
      (height confirmations : ℤ) (fail : Bool) (fetch : Option BlockCoinbase × Bool)
      → absence (indexed_verdict lib source header height confirmations fail fetch) ≡ false
  unfolding absence
  absence-indexed_verdict height confirmations fail (coinbase, unavailable) =
      elim (Bool-cases (leb_ℤ (pos 0) confirmations)) [
        | inl b ↦ rw b refl
        | inr b ↦ rw b (
            absence->>= (fetch_competitor lib source height fail) _
              (absence-stale_verdict height coinbase unavailable))
      ]

  absence-at_height :
      (live fail : Bool) (confirmations : ℤ) (height : Option ℤ)
      → absence (at_height lib source header live fail confirmations height) ≡ false
  unfolding absence
  absence-at_height true fail confirmations none = refl
  absence-at_height false fail confirmations none = refl
  absence-at_height live fail confirmations (some height) =
      absence->>= (live_coinbase_fetch (source.get_block_coinbase (lib.block_hash header)) live) _
        λ fetch. absence-indexed_verdict height confirmations fail (fetched fetch)

  -- a live run asked for the tip before and behind the classification
  abbrev pub WasReady : Setting → Type 0
  WasReady setting =
      (setting.live ≡ false)
      ⊎ (IsReady setting.status_before setting.now × IsReady setting.status_after setting.now)

  verdict_injective :
      {a b : ParentClassification}
      → ◌≡◌ {A = Result ClassifyFault ParentClassification} (ok a) (ok b)
      → a ≡ b
  verdict_injective e = cc

  absent_live :
      (setting : Setting) (fail : Bool)
      (preflight : Result ClassifyFault (Option KnownBlockContext)) (v : ParentClassification)
      → classify_absent lib source header setting fail preflight ≡ ok v
      → v.core_absence_attested ≡ true
      → setting.live ≡ true
      → IsReady setting.status_before setting.now × IsReady setting.status_after setting.now
  unfolding classify_absent
  absent_live setting fail preflight v h attested live =
      let (before, h1) =
        then-eq-ok (ready_if lib source setting.live setting.status_before setting.now) _ h in
      let (known, _, h2) = >>=-eq-ok preflight _ h1 in
      let (verdict, _, h3) =
        >>=-eq-ok (classify_core_unknown lib source header setting.live known fail) _ h2 in
      let (after, h4) =
        then-eq-ok
          (ready_if lib source (setting.live && verdict.core_absence_attested) setting.status_after
            setting.now)
          _ h3 in
      let both : (setting.live && verdict.core_absence_attested) ≡ true =
        rw live (ap (λ x. x.core_absence_attested) (verdict_injective h4) ∙ attested) in
      (
        ready_tip_sound _ _ (ready_if-true lib source setting.live _ _ live before),
        ready_tip_sound _ _ (ready_if-true lib source _ _ _ both after),
      )

  absent_ready :
      (setting : Setting) (fail : Bool)
      (preflight : Result ClassifyFault (Option KnownBlockContext)) (v : ParentClassification)
      → classify_absent lib source header setting fail preflight ≡ ok v
      → v.core_absence_attested ≡ true
      → WasReady setting
  absent_ready setting fail preflight v h attested = elim (Bool-cases setting.live) [
    | inl b ↦ inr (absent_live setting fail preflight v h attested b)
    | inr b ↦ inl b
  ]

  status_absence :
      (setting : Setting) (fail : Bool)
      (preflight : Result ClassifyFault (Option KnownBlockContext)) (v : ParentClassification)
      (answer : Result RpcFault CoreHeaderStatus)
      → from_status lib source header setting fail preflight answer ≡ ok v
      → v.core_absence_attested ≡ true
      → (answer ≡ err not_found) × WasReady setting
  unfolding absence
  status_absence setting fail preflight v (ok status) h attested = cc (
    absence-at_height setting.live fail status.confirmations (core_height_to_i32 status.height),
    attested,
  )
  status_absence setting fail preflight v (err fault) h attested =
      elim (Bool-cases (is_not_found fault)) [
        | inl b ↦ (
          ap err (is_not_found-true fault b),
          absent_ready setting fail preflight v (rw b at h) attested,
        )
        | inr b ↦ cc (absence-tolerate fail fault header, ap absence (rw b at h), attested)
      ]

  -- A verdict attests that Core does not have the header only if Core answered the lookup of the
  -- header's hash with "not found": no other failure, and no answer, leads to it. In live mode Core
  -- then had a synced, fresh mainnet tip both before and behind the classification.
  pub classify_parent_absence :
      (setting : Setting) (preflight : Result ClassifyFault (Option KnownBlockContext))
      (v : ParentClassification)
      → classify_parent_deferred_with_policy lib source header setting preflight ≡ ok v
      → v.core_absence_attested ≡ true
      → (source.get_header_verbose (lib.block_hash header) ≡ err not_found) × WasReady setting
  unfolding classify_parent_deferred_with_policy
  classify_parent_absence setting preflight v h attested =
      status_absence setting (setting.fail_on_rpc_error || setting.live) preflight v
        (source.get_header_verbose (lib.block_hash header)) h attested
