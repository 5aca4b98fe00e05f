-- ===== src/Effects.antt =====
-- Asynchronous code that writes before it may throw: a run takes the state and returns the state that
-- is left with a result. What was written stays when a later step throws.
use mathlib.Core.Path.{◌≡◌, ap}
use mathlib.Core.Bool.{Bool, true, false}
use mathlib.Core.Option.{Option, none, some}
use swafri_backend.Common.{HttpException, Result, ok, err, if◌then◌else◌}

abbrev pub Run {ℓ κ} : Type ℓ → Type κ → Type (ℓ ⊔ κ)
Run S A = S → S × Result A

abbrev pub continue_with {ℓ κ μ} :
    {S : Type ℓ} {A : Type κ} {B : Type μ} → (A → Run S B) → S × Result A → S × Result B
continue_with next (s, err e) = (s, err e)
continue_with next (s, ok a) = next a s

infixl 5 ◌>>=◌ ◌>>◌
abbrev pub ◌>>=◌ {ℓ κ μ} :
    {S : Type ℓ} {A : Type κ} {B : Type μ} → Run S A → (A → Run S B) → Run S B
◌>>=◌ run next s = continue_with next (run s)

abbrev pub ◌>>◌ {ℓ κ μ} : {S : Type ℓ} {A : Type κ} {B : Type μ} → Run S A → Run S B → Run S B
◌>>◌ {A = A} run next = run >>= λ (_ : A). next

-- `Promise.all` of two promises, the first one's writes before the second's: both run to their end, and
-- where one is rejected the whole is.
abbrev pub both_results {ℓ κ} : {A : Type ℓ} {B : Type κ} → Result A → Result B → Result (A × B)
both_results (err e) r = err e
both_results (ok a) (err e) = err e
both_results (ok a) (ok b) = ok (a, b)

abbrev pub together {ℓ κ μ} :
    {S : Type ℓ} {A : Type κ} {B : Type μ} → Run S A → Run S B → Run S (A × B)
together run1 run2 s =
    let first = run1 s in let second = run2 first.0 in (second.0, both_results first.1 second.1)

abbrev pub return {ℓ κ} : {S : Type ℓ} {A : Type κ} → A → Run S A
return a s = (s, ok a)

abbrev pub throw {ℓ κ} : {S : Type ℓ} {A : Type κ} → HttpException → Run S A
throw e s = (s, err e)

abbrev pub read {ℓ κ} : {S : Type ℓ} {A : Type κ} → (S → A) → Run S A
read look s = (s, ok (look s))

abbrev pub modify {ℓ} : {S : Type ℓ} → (S → S) → Run S (Unit {0})
modify change s = (change s, ok tt)

-- `if (!test) throw e`.
abbrev pub ensure {ℓ} : {S : Type ℓ} → Bool → HttpException → Run S (Unit {0})
ensure true e s = (s, ok tt)
ensure false e s = (s, err e)

-- `if (!value) throw e`.
abbrev pub require {ℓ κ} : {S : Type ℓ} {A : Type κ} → Option A → HttpException → Run S A
require none e s = (s, err e)
require (some a) e s = (s, ok a)

abbrev value_or {ℓ} : {A : Type ℓ} → A → Result A → A
value_or default (err e) = default
value_or default (ok a) = a

pub continue_with-ok {ℓ κ μ} :
    {S : Type ℓ} {A : Type κ} {B : Type μ} (next : A → Run S B) (r : S × Result A) (a : A)
    → r.1 ≡ ok a
    → continue_with next r ≡ next a (r.0)
continue_with-ok next (s, err e) a h = absurd (cc)
continue_with-ok next (s, ok b) a h = ap (λ r. next (value_or b r) s) h

-- A run that keeps an invariant of the state, whether it throws or not.
pub record Keeps {ℓ κ μ} {S : Type ℓ} {A : Type κ} (Inv : S → Type μ) (run : Run S A)
    : Type (ℓ ⊔ μ) where
  pub kept : (s : S) → Inv s → Inv ((run s).0)

module _ {ℓ κ ν} {S : Type ℓ} {A : Type κ} {Inv : S → Type ν} where
  pub Keeps-return : (a : A) → Keeps Inv (return {S = S} a)
  Keeps-return a = record { kept = λ s h. h }

  pub Keeps-read : (look : S → A) → Keeps Inv (read look)
  Keeps-read look = record { kept = λ s h. h }

  pub Keeps-if :
      (test : Bool) {run1 run2 : Run S A}
      → Keeps Inv run1
      → Keeps Inv run2
      → Keeps Inv (if test then run1 else run2)
  Keeps-if true h k = h
  Keeps-if false h k = k

module _ {ℓ κ μ ν} {S : Type ℓ} {A : Type κ} {B : Type μ} {Inv : S → Type ν} where
  Keeps-continue_with :
      (next : A → Run S B)
      → ((a : A) → Keeps Inv (next a))
      → (r : S × Result A) → Inv (r.0)
      → Inv ((continue_with next r).0)
  Keeps-continue_with next later (s, err e) h = h
  Keeps-continue_with next later (s, ok a) h = (later a).kept s h

  pub Keeps->>= :
      {run : Run S A} {next : A → Run S B}
      → Keeps Inv run
      → ((a : A) → Keeps Inv (next a))
      → Keeps Inv (run >>= next)
  Keeps->>= {run = run} {next = next} first later = record {
    kept = λ s h. Keeps-continue_with next later (run s) (first.kept s h);
  }

pub Keeps-together {ℓ κ μ ν} :
    {S : Type ℓ} {A : Type κ} {B : Type μ} {Inv : S → Type ν} {run1 : Run S A} {run2 : Run S B}
    → Keeps Inv run1
    → Keeps Inv run2
    → Keeps Inv (together run1 run2)
Keeps-together {run1 = run1} first second = record {
  kept = λ s h. second.kept ((run1 s).0) (first.kept s h);
}

pub Keeps-modify {ℓ ν} :
    {S : Type ℓ} {Inv : S → Type ν} (change : S → S)
    → ((s : S) → Inv s → Inv (change s))
    → Keeps Inv (modify change)
Keeps-modify change h = record { kept = h }
