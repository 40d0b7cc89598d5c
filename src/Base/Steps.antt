-- ===== src/Base/Steps.antt =====
-- Fallible steps on a state that each hands on, a fault included.
use merge_mining_monitor.Base.{Result, ap, err, ok, refl, ◌≡◌}

abbrev pub Step : Type 0 → Type 0 → Type 0 → Type 0
Step S E A = S → Result E A × S

module _ {S E A B : Type 0} where
  unfoldable pub after : Result E A × S → (A → Step S E B) → Result E B × S
  after (ok a, s) next = next a s
  after (err fault, s) next = (err fault, s)

infixl 5 ◌>>=◌ ◌>>◌
abbrev pub ◌>>=◌ : {S E A B : Type 0} → Step S E A → (A → Step S E B) → Step S E B
(m >>= next) s = after (m s) next

abbrev pub ◌>>◌ : {S E B : Type 0} → Step S E (Unit {0}) → Step S E B → Step S E B
(m >> next) s = after (m s) (λ _. next)

abbrev pub returned : {S E A : Type 0} → A → Step S E A
returned a s = (ok a, s)

-- What holds of the state behind a first step, and stays in the next, holds behind both.
pub after-Keeps :
    {S E A B : Type 0} (P : S → Type 0) (first : Result E A × S) (next : A → Step S E B)
    → P first.1
    → ((a : A) → first.0 ≡ ok a → P first.1 → P (next a first.1).1)
    → P (after first next).1
unfolding after
after-Keeps P (ok a, s) next h later = later a refl h
after-Keeps P (err fault, s) next h later = h

-- A chain that returned `b` went through its first step.
pub after-eq-ok :
    {S E A B : Type 0} (first : Result E A × S) (next : A → Step S E B) {b : B}
    → (after first next).0 ≡ ok b
    → (a : A) × (first.0 ≡ ok a) × ((next a first.1).0 ≡ ok b)
unfolding after
after-eq-ok (ok a, s) next went = (a, refl, went)
after-eq-ok (err fault, s) next went = cc

-- The same with the states: the next step started behind the first.
pub after-eq :
    {S E A B : Type 0} (first : Result E A × S) (next : A → Step S E B) {b : B} {end : S}
    → after first next ≡ (ok b, end)
    → (a : A) × (s : S) × (first ≡ (ok a, s)) × (next a s ≡ (ok b, end))
unfolding after
after-eq (ok a, s) next went = (a, s, refl, went)
after-eq (err fault, s) next went = cc

pub returned-eq :
    {S E A : Type 0} {a b : A} {s end : S}
    → ◌≡◌ {A = Result E A × S} (ok a, s) (ok b, end)
    → (a ≡ b) × (s ≡ end)
returned-eq e = (cc, ap (λ x. x.1) e)
