-- ===== src/Exec/Preservation.antt =====
-- What keeps a property of the state: a read, a raise, and each branch of a test that does.
use jarvis_awf.Prelude.{Bool, true, false, Option, none, some, if◌then◌else◌}
use jarvis_awf.Exec.{Exec, Exn, Result, ok, err, gets, lift, or_raise, ◌>>=◌}
use jarvis_awf.Exec.Inversion.{Preserves, >>=-Preserves}

module _ {ℓ} {S : Type ℓ} (P : S → Type ℓ) where
  pub if-Preserves :
      {A : Type ℓ} (b : Bool) (m n : Exec S A)
      → Preserves P m
      → Preserves P n
      → Preserves P (if b then m else n)
  if-Preserves true m n h k = h
  if-Preserves false m n h k = k

  pub lift-Preserves : {A : Type ℓ} (r : Result A) → Preserves P (lift {S = S} r)
  lift-Preserves (ok a) s h = h
  lift-Preserves (err e) s h = h

  pub or_raise-Preserves :
      {A : Type ℓ} (e : Exn) (o : Option A) → Preserves P (or_raise {S = S} e o)
  or_raise-Preserves e none s h = h
  or_raise-Preserves e (some a) s h = h

  -- what a read is followed by
  pub read-Preserves :
      {A B : Type ℓ} (f : S → A) (g : A → Exec S B)
      → ((a : A) → Preserves P (g a))
      → Preserves P (gets f >>= g)
  read-Preserves f g k = >>=-Preserves P (gets f) g (λ s h. h) k
