-- ===== src/Exec/Inversion.antt =====
-- Inversion of a block that returned: each of its statements returned, and the block left the state
-- that the last of them left.
use jarvis_awf.Prelude.{◌≡◌, refl, ap}
use jarvis_awf.Exec.{Exec, Exn, Result, ok, err, ◌>>=◌}

pub ok-injective {ℓ} : {A : Type ℓ} {a b : A} → ok a ≡ ok b → a ≡ b
ok-injective {a = a} h = ap (λ (r : Result _). elim r [ ok x ↦ x | err e ↦ a ]) h

pub record Returned {ℓ} {S A B : Type ℓ} (m : Exec S A) (f : A → Exec S B) (s : S) (b : B)
    : Type ℓ where
  pub value : A
  pub first : (m s).0 ≡ ok value
  pub second : (f value (m s).1).0 ≡ ok b
  pub state : ((m >>= f) s).1 ≡ (f value (m s).1).1

module _ {ℓ} {S A B : Type ℓ} (m : Exec S A) (f : A → Exec S B) (s : S) where
  bind_cases :
      (p : Result A × S) {b : B}
      → (elim p.0 as (λ _. Result B × S) [ ok a ↦ f a p.1 | err e ↦ (err e, p.1) ]).0 ≡ ok b
      → (a : A) × (p.0 ≡ ok a)
        × ((f a p.1).0 ≡ ok b)
        × ((elim p.0 as (λ _. Result B × S) [ ok a ↦ f a p.1 | err e ↦ (err e, p.1) ]).1
            ≡ (f a p.1).1)
  bind_cases (ok a, t) h = (a, refl, h, refl)
  bind_cases (err e, t) h = absurd (cc h)

  pub >>=-Returned : {b : B} → ((m >>= f) s).0 ≡ ok b → Returned m f s b
  >>=-Returned h =
      let (a, p, q, r) = bind_cases (m s) h in
      record { value = a; first = p; second = q; state = r }

  -- A block goes on from what its first statement returned,
  pub >>=-step : {a : A} {t : S} → m s ≡ (ok a, t) → (m >>= f) s ≡ f a t
  >>=-step h =
      ap
        (λ (p : Result A × S). elim p.0 as (λ _. Result B × S) [
          | ok a ↦ f a p.1
          | err e ↦ (err e, p.1)
        ])
        h

  -- and ends where that raised.
  pub >>=-raised : {e : Exn} {t : S} → m s ≡ (err e, t) → (m >>= f) s ≡ (err e, t)
  >>=-raised h =
      ap
        (λ (p : Result A × S). elim p.0 as (λ _. Result B × S) [
          | ok a ↦ f a p.1
          | err e ↦ (err e, p.1)
        ])
        h

-- The action keeps a property of the state, whether it returns or raises.
abbrev pub Preserves {ℓ} : {S A : Type ℓ} → (S → Type ℓ) → Exec S A → Type ℓ
Preserves P m = (s : _) → P s → P (m s).1

module _ {ℓ} {S A B : Type ℓ} (P : S → Type ℓ) where
  after_Preserves :
      (f : A → Exec S B) (p : Result A × S)
      → P p.1
      → ((a : A) → Preserves P (f a))
      → P (elim p.0 as (λ _. Result B × S) [ ok a ↦ f a p.1 | err e ↦ (err e, p.1) ]).1
  after_Preserves f (ok a, t) h k = k a t h
  after_Preserves f (err e, t) h k = h

  pub >>=-Preserves :
      (m : Exec S A) (f : A → Exec S B)
      → Preserves P m
      → ((a : A) → Preserves P (f a))
      → Preserves P (m >>= f)
  >>=-Preserves m f h k s p = after_Preserves f (m s) (h s p) k

module _ {ℓ} {S A B : Type ℓ} (f : A → Exec S B) where
  raised_first :
      (p : Result A × S) {e : Exn}
      → p.0 ≡ err e
      → (elim p.0 as (λ _. Result B × S) [ ok a ↦ f a p.1 | err e ↦ (err e, p.1) ]).0 ≡ err e
  raised_first (ok a, t) h = absurd (cc h)
  raised_first (err d, t) h = cc

  pub >>=-err : (m : Exec S A) (s : S) {e : Exn} → (m s).0 ≡ err e → ((m >>= f) s).0 ≡ err e
  >>=-err m s h = raised_first (m s) h

-- A block ends as wanted if each of its ends does: where its first statement raises, and where the
-- second ends.
module _ {ℓ} {S A B : Type ℓ} (P : Result A × S → Type ℓ) (Q : Result B × S → Type ℓ) where
  post_of :
      (f : A → Exec S B) (p : Result A × S)
      → P p
      → ((a : A) (t : S) → P (ok a, t) → Q (f a t))
      → ((e : Exn) (t : S) → P (err e, t) → Q (err e, t))
      → Q (elim p.0 as (λ _. Result B × S) [ ok a ↦ f a p.1 | err e ↦ (err e, p.1) ])
  post_of f (ok a, t) h k l = k a t h
  post_of f (err e, t) h k l = l e t h

  pub >>=-Post :
      (m : Exec S A) (f : A → Exec S B) (s : S)
      → P (m s)
      → ((a : A) (t : S) → P (ok a, t) → Q (f a t))
      → ((e : Exn) (t : S) → P (err e, t) → Q (err e, t))
      → Q ((m >>= f) s)
  >>=-Post m f s h k l = post_of f (m s) h k l

module _ {ℓ} {S A B : Type ℓ} (f g : A → Exec S B) where
  same_bind :
      (p : Result A × S)
      → ((a : A) → p.0 ≡ ok a → f a p.1 ≡ g a p.1)
      → elim p.0 as (λ _. Result B × S) [ ok a ↦ f a p.1 | err e ↦ (err e, p.1) ]
        ≡ elim p.0 as (λ _. Result B × S) [ ok a ↦ g a p.1 | err e ↦ (err e, p.1) ]
  same_bind (ok a, t) h = h a refl
  same_bind (err e, t) h = refl

  -- Two blocks agree where their continuations agree on what the first statement returns.
  pub >>=-cong :
      (m : Exec S A) (s : S)
      → ((a : A) → (m s).0 ≡ ok a → f a (m s).1 ≡ g a (m s).1)
      → (m >>= f) s ≡ (m >>= g) s
  >>=-cong m s h = same_bind (m s) h
