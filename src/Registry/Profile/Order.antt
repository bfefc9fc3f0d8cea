-- ===== src/Registry/Profile/Order.antt =====
-- The order in which the candidates of a profile are tried.
use jarvis_awf.Prelude.{
  ◌≡◌, inl, inr, refl, ap, ◌∙◌, Bool, true, false, not, ◌&&◌, List, [], ◌∷◌, if◌then◌else◌, select,
  All, arith, Bool-cases,
}
use jarvis_awf.Prelude.Int.{ℤ, ltb_ℤ}
use jarvis_awf.Registry.Profile.{
  Candidate, ModelProfile, insert_by_priority, sort_by_priority, enabled_candidates_by_priority,
}

-- no later candidate has a lower priority value
abbrev pub IsSorted : List Candidate → Type 0
IsSorted [] = Unit
IsSorted (c ∷ cs) = All (λ d. ltb_ℤ d.priority c.priority ≡ false) cs × IsSorted cs

ltb_ℤ_trans_le : (a b c : ℤ) → ltb_ℤ b a ≡ false → ltb_ℤ c b ≡ false → ltb_ℤ c a ≡ false
ltb_ℤ_trans_le a b c h k = ground arith

abbrev NotBefore : Candidate → Candidate → Type 0
NotBefore c d = ltb_ℤ d.priority c.priority ≡ false

All-insert :
    (c e : Candidate) (ds : List Candidate)
    → NotBefore c e
    → All (NotBefore c) ds
    → All (NotBefore c) (insert_by_priority e ds)
unfolding insert_by_priority
All-insert c e [] h k = (h, tt)
All-insert c e (d ∷ ds) h (k, ks) = elim (Bool-cases (ltb_ℤ d.priority e.priority)) [
  | inl b ↦ rw b (k, All-insert c e ds h ks)
  | inr b ↦ rw b (h, (k, ks))
]

All-trans :
    (c d : Candidate) (ds : List Candidate)
    → NotBefore c d
    → All (NotBefore d) ds
    → All (NotBefore c) ds
All-trans c d [] h k = tt
All-trans c d (e ∷ ds) h (k, ks) =
    (ltb_ℤ_trans_le c.priority d.priority e.priority h k, All-trans c d ds h ks)

insert-IsSorted :
    (c : Candidate) (ds : List Candidate) → IsSorted ds → IsSorted (insert_by_priority c ds)
unfolding insert_by_priority
insert-IsSorted c [] h = (tt, tt)
insert-IsSorted c (d ∷ ds) (h, hs) = elim (Bool-cases (ltb_ℤ d.priority c.priority)) [
  | inl b ↦ rw b (All-insert d c ds (asym d.priority c.priority b) h, insert-IsSorted c ds hs)
  | inr b ↦ rw b ((b, All-trans c d ds b h), (h, hs))
]
  where
    asym : (a b : ℤ) → ltb_ℤ a b ≡ true → ltb_ℤ b a ≡ false
    asym a b h = ground arith

sort-IsSorted : (cs : List Candidate) → IsSorted (sort_by_priority cs)
unfolding sort_by_priority
sort-IsSorted [] = tt
sort-IsSorted (c ∷ cs) = insert-IsSorted c (sort_by_priority cs) (sort-IsSorted cs)

-- `z` is the priority of the candidate
abbrev pub has_priority : ℤ → Candidate → Bool
has_priority z c = not (ltb_ℤ z c.priority) && not (ltb_ℤ c.priority z)

module _ (z : ℤ) where
  apart :
      (c d : Candidate)
      → ltb_ℤ d.priority c.priority ≡ true
      → has_priority z c ≡ true
      → has_priority z d ≡ false
  apart c d h k = ground arith

  -- two candidates of different priorities are not both selected
  swap :
      (b d : Bool) (x y : Candidate) (l : List Candidate)
      → (b ≡ true → d ≡ false)
      → (if d then y ∷ (if b then x ∷ l else l) else (if b then x ∷ l else l))
        ≡ (if b then x ∷ (if d then y ∷ l else l) else (if d then y ∷ l else l))
  swap false d x y l h = refl
  swap true d x y l h = rw (h refl) refl

  select-insert :
      (c : Candidate) (ds : List Candidate)
      → select (has_priority z) (insert_by_priority c ds) ≡ select (has_priority z) (c ∷ ds)
  unfolding insert_by_priority
  select-insert c [] = refl
  select-insert c (d ∷ ds) = elim (Bool-cases (ltb_ℤ d.priority c.priority)) [
    | inl b ↦
        rw (b, select-insert c ds)
          (swap (has_priority z c) (has_priority z d) c d (select (has_priority z) ds)
            (apart c d b))
    | inr b ↦ rw b refl
  ]

  select-sort :
      (cs : List Candidate)
      → select (has_priority z) (sort_by_priority cs) ≡ select (has_priority z) cs
  unfolding sort_by_priority
  select-sort [] = refl
  select-sort (c ∷ cs) =
      select-insert c (sort_by_priority cs)
      ∙ ap (λ l. if has_priority z c then c ∷ l else l) (select-sort cs)

-- The candidates are tried by increasing priority value; of each value they are the enabled
-- candidates of the profile, in the order of the profile.
pub enabled_candidates_by_priority-IsSorted :
    (p : ModelProfile)
    → IsSorted (enabled_candidates_by_priority p)
      × ((z : ℤ)
          → select (has_priority z) (enabled_candidates_by_priority p)
            ≡ select (has_priority z) (select (λ c. c.enabled) p.candidates))
unfolding enabled_candidates_by_priority
enabled_candidates_by_priority-IsSorted p = (
  sort-IsSorted (select (λ c. c.enabled) p.candidates),
  λ z. select-sort z (select (λ c. c.enabled) p.candidates),
)
