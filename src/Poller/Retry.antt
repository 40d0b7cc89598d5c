-- ===== src/Poller/Retry.antt =====
-- crates/mmm-producers/src/poller/mod.rs: the attempts of `fetch_tip_with_retry`.
use merge_mining_monitor.Base.{Result, ap, arith, err, ok, refl, suc, zero, ℕ, ◌+◌, ◌≡◌, ◌≤◌}
use merge_mining_monitor.Base.Int.{ℤ}
use merge_mining_monitor.Live.{LiveFault}
use merge_mining_monitor.Poller.Session.{ChainPoller, fetch_tip_with_retry, tried, try_tip}

-- Attempts that failed, each followed by its sleep, from one state to another.
pub data Failed {S : Type 0} (chain : ChainPoller S) : ℕ → ℕ → S → S → Type 0 where
  none_failed : {attempt : ℕ} {s : S} → Failed chain 0 attempt s s
  one_failed :
      {n attempt : ℕ} {fault : LiveFault} {s t u : S}
      → chain.chain_tip s ≡ (err fault, t)
      → Failed chain n (attempt + 1) (chain.sleep_seconds attempt t) u
      → Failed chain (suc n) attempt s u

module _ {S : Type 0} (chain : ChainPoller S) where
  -- the attempts that a result comes from: `failed` that failed, then one that gave the result
  pub record Attempts (more attempt : ℕ) (s : S) (result : Result LiveFault ℤ × S) : Type 0 where
    pub failed : ℕ
    pub last_state : S
    pub failures : Failed chain failed attempt s last_state
    pub last_call : chain.chain_tip last_state ≡ result
    pub bounded : failed ≤ more
    pub exhausted : {fault : LiveFault} → result.0 ≡ err fault → failed ≡ more

  tried-Attempts :
      (more attempt : ℕ) (s : S) (first : Result LiveFault ℤ × S)
      → chain.chain_tip s ≡ first
      → ((t : S) → Attempts more (attempt + 1) t (try_tip chain more (attempt + 1) t))
      → Attempts (suc more) attempt s (tried chain attempt (try_tip chain more (attempt + 1)) first)
  unfolding tried
  tried-Attempts more attempt s (ok tip, t) called later = record {
    failed = 0;
    last_state = s;
    failures = none_failed;
    last_call = called;
    bounded = omega arith;
    exhausted = λ e. cc;
  }
  tried-Attempts more attempt s (err fault, t) called later =
      let rest = later (chain.sleep_seconds attempt t) in
      record {
        failed = suc rest.failed;
        last_state = rest.last_state;
        failures = one_failed called rest.failures;
        last_call = rest.last_call;
        bounded = omega (arith, rest.bounded);
        exhausted = λ e. ap suc (rest.exhausted e);
      }

  pub try_tip-Attempts :
      (more attempt : ℕ) (s : S) → Attempts more attempt s (try_tip chain more attempt s)
  unfolding try_tip
  try_tip-Attempts zero attempt s = record {
    failed = 0;
    last_state = s;
    failures = none_failed;
    last_call = refl;
    bounded = omega arith;
    exhausted = λ e. refl;
  }
  try_tip-Attempts (suc more) attempt s =
      tried-Attempts more attempt s (chain.chain_tip s) refl (try_tip-Attempts more (attempt + 1))

  -- The tip is asked for at most five times: every answer before the last is a fault, followed by a
  -- sleep of as many seconds as its attempt's number, and the result is the last answer. A fault is
  -- given back only when all five attempts failed, and then no sleep follows it.
  pub fetch_tip_with_retry-Attempts : (s : S) → Attempts 4 1 s (fetch_tip_with_retry chain s)
  unfolding fetch_tip_with_retry
  fetch_tip_with_retry-Attempts s = try_tip-Attempts 4 1 s
