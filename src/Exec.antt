-- ===== src/Exec.antt =====
-- Python's statements over a state: an action returns a value or raises, and either way what was
-- written before stays written.
mod Exception
pub mod Inversion
pub mod Preservation
pub use Exception.*
use jarvis_awf.Prelude.{ℕ, ◌≡◌, refl, Bool, true, false, Option, none, some}

pub data Result {ℓ} (A : Type ℓ) : Type ℓ where
  ok : A → Result A
  err : Exn → Result A

abbrev pub Exec {ℓ} : Type ℓ → Type ℓ → Type ℓ
Exec S A = S → Result A × S

infixl 5 ◌>>=◌ ◌>>◌
abbrev pub ◌>>=◌ {ℓ} : {S A B : Type ℓ} → Exec S A → (A → Exec S B) → Exec S B
◌>>=◌ m f s = let (r, t) = m s in elim r [ ok a ↦ f a t | err e ↦ (err e, t) ]

abbrev pub ◌>>◌ {ℓ} : {S A B : Type ℓ} → Exec S A → Exec S B → Exec S B
m >> n = m >>= λ _. n

module _ {ℓ} {S A : Type ℓ} where
  abbrev pub pure : A → Exec S A
  pure a s = (ok a, s)

  abbrev pub raise : Exn → Exec S A
  raise e s = (err e, s)

  abbrev pub gets : (S → A) → Exec S A
  gets f s = (ok (f s), s)

  -- `try: m except Exception as exc: ...`, with the exception as a value
  abbrev pub attempt : Exec S A → Exec S (Result A)
  attempt m s = let (r, t) = m s in (ok r, t)

  -- a value, or the exception that its absence raises
  abbrev pub or_raise : Exn → Option A → Exec S A
  or_raise e none = raise e
  or_raise e (some a) = pure a

  abbrev pub lift : Result A → Exec S A
  lift (ok a) = pure a
  lift (err e) = raise e

abbrev pub modify {ℓ} : {S : Type ℓ} → (S → S) → Exec S Unit
modify f s = (ok tt, f s)

abbrev pub when : {S : Type 0} → Bool → Exec S (Unit {0}) → Exec S (Unit {0})
when true m = m
when false m = pure tt
