-- ===== src/Prelude/Table.antt =====
-- A table of the database: rows under their primary key, in the order of insertion. The
-- representation is private, and the other modules use the laws.
use Prim.Native.String.{String}
use mathlib.Core.Path.{◌≡◌, refl}
use mathlib.Core.Bool.{Bool, true, false}
use mathlib.Core.Option
use mathlib.Core.Option.{Option, none, some}
use mathlib.Core.List.{List, [], ◌∷◌, ◌++◌}
use native.Mathlib.Omega.{arith}
use text.Mathlib.Text.{◌==◌}
use text.Mathlib.TextEquality.{eq_iff}
use jarvis_awf.Prelude.Tests.{if◌then◌else◌, is_some}
use jarvis_awf.Prelude.Lists.{any}

pub record Table {ℓ} (V : Type ℓ) : Type ℓ where
  entries : List (String × V)

module _ {ℓ} {V : Type ℓ} where
  abbrev lookup : String → List (String × V) → Option V
  lookup k [] = none
  lookup k ((j, v) ∷ l) = if j == k then some v else lookup k l

  abbrev adjust : String → (V → V) → List (String × V) → List (String × V)
  adjust k f [] = []
  adjust k f ((j, v) ∷ l) = (j, if j == k then f v else v) ∷ adjust k f l

  abbrev search_rows : (String → V → Bool) → List (String × V) → Option (String × V)
  search_rows p [] = none
  search_rows p ((k, v) ∷ l) = let rest = search_rows p l in if p k v then some (k, v) else rest

  abbrev sweep : (String → V → Bool) → List (String × V) → List (String × V)
  sweep p [] = []
  sweep p ((k, v) ∷ l) = let rest = sweep p l in if p k v then rest else (k, v) ∷ rest

  unfoldable pub empty : Table V
  empty = record { entries = [] }

  -- SELECT * WHERE key = ?
  unfoldable pub get : String → Table V → Option V
  get k t = lookup k t.entries

  -- INSERT OR IGNORE
  unfoldable pub insert_new : String → V → Table V → Table V
  insert_new k v t =
      if is_some (lookup k t.entries) then t else record { entries = t.entries ++ (k, v) ∷ [] }

  -- UPDATE ... WHERE key = ?
  unfoldable pub update : String → (V → V) → Table V → Table V
  update k f t = record { entries = adjust k f t.entries }

  -- SELECT * WHERE ..., the first row
  unfoldable pub find : (String → V → Bool) → Table V → Option (String × V)
  find p t = search_rows p t.entries

  -- SELECT *, in the order of insertion
  unfoldable pub rows : Table V → List (String × V)
  rows t = t.entries

  -- DELETE WHERE ...
  unfoldable pub delete : (String → V → Bool) → Table V → Table V
  delete p t = record { entries = sweep p t.entries }

  pub get-empty : (k : String) → get k empty ≡ none
  unfolding get empty
  get-empty k = refl

  lookup-append :
      (k j : String) (v : V) (l : List (String × V))
      → lookup k l ≡ none
      → lookup j (l ++ (k, v) ∷ []) ≡ (if k == j then some v else lookup j l)
  lookup-append k j v [] h = refl
  lookup-append k j v ((i, w) ∷ l) h =
      ground (arith, eq_iff k j, eq_iff i k, eq_iff i j, lookup-append k j v l)

  pub get-insert_new :
      (k j : String) (v : V) (t : Table V)
      → get k t ≡ none
      → get j (insert_new k v t) ≡ (if k == j then some v else get j t)
  unfolding get insert_new
  get-insert_new k j v t h = ground (arith, lookup-append k j v t.entries)

  -- an existing row is kept
  pub insert_new_old :
      (k : String) (v w : V) (t : Table V) → get k t ≡ some w → insert_new k v t ≡ t
  unfolding get insert_new
  insert_new_old k v w t h = ground arith

  lookup-adjust :
      (k j : String) (f : V → V) (l : List (String × V))
      → lookup j (adjust k f l) ≡ (if k == j then Option.map f (lookup j l) else lookup j l)
  lookup-adjust k j f [] = ground arith
  lookup-adjust k j f ((i, w) ∷ l) =
      ground (arith, eq_iff k j, eq_iff i k, eq_iff i j, lookup-adjust k j f l)

  pub get-update :
      (k j : String) (f : V → V) (t : Table V)
      → get j (update k f t) ≡ (if k == j then Option.map f (get j t) else get j t)
  unfolding get update
  get-update k j f t = lookup-adjust k j f t.entries

  search_rows-append :
      (p : String → V → Bool) (k : String) (v : V) (l : List (String × V))
      → search_rows p l ≡ none
      → search_rows p (l ++ (k, v) ∷ []) ≡ (if p k v then some (k, v) else none)
  search_rows-append p k v [] h = refl
  search_rows-append p k v ((i, w) ∷ l) h = ground (arith, search_rows-append p k v l)

  -- The row that an INSERT adds is found where none was.
  pub find-insert_new :
      (p : String → V → Bool) (k : String) (v : V) (t : Table V)
      → get k t ≡ none
      → find p t ≡ none
      → find p (insert_new k v t) ≡ (if p k v then some (k, v) else none)
  unfolding get find insert_new
  find-insert_new p k v t h g = ground (arith, search_rows-append p k v t.entries)

  abbrev pub adjusted : String → (V → V) → String × V → String × V
  adjusted k f (j, v) = (j, if j == k then f v else v)

  search_rows-adjust :
      (p : String → V → Bool) (k : String) (f : V → V) (l : List (String × V))
      → ((j : String) (v : V) → p j (f v) ≡ p j v)
      → search_rows p (adjust k f l) ≡ Option.map (adjusted k f) (search_rows p l)
  search_rows-adjust p k f [] h = refl
  search_rows-adjust p k f ((i, w) ∷ l) h = ground (arith, h i w, search_rows-adjust p k f l h)

  -- An UPDATE of columns that the condition does not read finds the same row, updated.
  pub find-update :
      (p : String → V → Bool) (k : String) (f : V → V) (t : Table V)
      → ((j : String) (v : V) → p j (f v) ≡ p j v)
      → find p (update k f t) ≡ Option.map (adjusted k f) (find p t)
  unfolding find update
  find-update p k f t h = search_rows-adjust p k f t.entries h

  abbrev pub on_pair : (String → V → Bool) → String × V → Bool
  on_pair p (k, v) = p k v

  -- Some row satisfies the condition.
  unfoldable pub exists : (String → V → Bool) → Table V → Bool
  exists p t = any (on_pair p) t.entries

  lookup-sweep :
      (p : String → V → Bool) (k : String) (v : V) (l : List (String × V))
      → lookup k l ≡ some v
      → p k v ≡ false
      → lookup k (sweep p l) ≡ some v
  lookup-sweep p k v [] h n = cc
  lookup-sweep p k v ((j, w) ∷ l) h n = ground (arith, eq_iff j k, lookup-sweep p k v l)

  -- A DELETE keeps a row that does not satisfy its condition.
  pub get-delete :
      (p : String → V → Bool) (k : String) (v : V) (t : Table V)
      → get k t ≡ some v
      → p k v ≡ false
      → get k (delete p t) ≡ some v
  unfolding get delete
  get-delete p k v t h n = lookup-sweep p k v t.entries h n

  any-sweep :
      (p q : String → V → Bool) (l : List (String × V))
      → ((k : String) (v : V) → q k v ≡ true → p k v ≡ false)
      → any (on_pair q) (sweep p l) ≡ any (on_pair q) l
  any-sweep p q [] h = refl
  any-sweep p q ((k, v) ∷ l) h = ground (arith, h k v, any-sweep p q l h)

  -- A DELETE leaves rows that its condition excludes.
  pub exists-delete :
      (p q : String → V → Bool) (t : Table V)
      → ((k : String) (v : V) → q k v ≡ true → p k v ≡ false)
      → exists q (delete p t) ≡ exists q t
  unfolding exists delete
  exists-delete p q t h = any-sweep p q t.entries h

  any_of_lookup :
      (p : String → V → Bool) (k : String) (v : V) (l : List (String × V))
      → lookup k l ≡ some v
      → p k v ≡ true
      → any (on_pair p) l ≡ true
  any_of_lookup p k v [] h n = cc
  any_of_lookup p k v ((j, w) ∷ l) h n = ground (arith, eq_iff j k, any_of_lookup p k v l)

  pub exists_of_get :
      (p : String → V → Bool) (k : String) (v : V) (t : Table V)
      → get k t ≡ some v
      → p k v ≡ true
      → exists p t ≡ true
  unfolding get exists
  exists_of_get p k v t h n = any_of_lookup p k v t.entries h n

  pub exists-rows : (p : String → V → Bool) (t : Table V) → exists p t ≡ any (on_pair p) (rows t)
  unfolding exists rows
  exists-rows p t = refl
