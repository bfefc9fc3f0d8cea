-- ===== src/Json.antt =====
-- The JSON values of node definitions, step outputs and event payloads, and what the code asks of
-- a dict: `d.get(k)`, `k in d`, truth, `d[k] = v` and `{**a, **b}`. A number is an integer. The
-- `*_json` columns hold the value itself: `json.loads` undoes `json.dumps`.
pub mod Convert
use jarvis_awf.Prelude.{
  ◌||◌, zero, suc, String, ◌≡◌, refl, Bool, true, false, not, Option, none, some, List, [], ◌∷◌,
  arith, ◌==◌, eq_iff, if◌then◌else◌, is_some,
}
use jarvis_awf.Prelude.Int.{ℤ, pos, negsuc}

mutual
  pub data Value : Type 0 where
    null : Value
    bool : Bool → Value
    num : ℤ → Value
    str : String → Value
    arr : Items → Value
    obj : Dict → Value

  pub data Items : Type 0 where
    nil : Items
    cons : Value → Items → Items

  pub data Dict : Type 0 where
    end : Dict
    field : String → Value → Dict → Dict

-- `d.get(k)`, with none for a missing key
abbrev pub get : String → Dict → Option Value
get k end = none
get k (field j v d) = if j == k then some v else get k d

-- `k in d`
abbrev pub contains : String → Dict → Bool
contains k d = is_some (get k d)

-- `d[k] = v`
abbrev pub put : String → Value → Dict → Dict
put k v end = field k v end
put k v (field j w d) = if j == k then field j v d else field j w (put k v d)

-- `{**a, **b}`
abbrev pub merge : Dict → Dict → Dict
merge a end = a
merge a (field k v b) = merge (put k v a) b

-- `bool(x)`
abbrev pub truthy : Value → Bool
truthy null = false
truthy (bool b) = b
truthy (num (pos zero)) = false
truthy (num (pos (suc n))) = true
truthy (num (negsuc n)) = true
truthy (str s) = not (s == "")
truthy (arr nil) = false
truthy (arr (cons v vs)) = true
truthy (obj end) = false
truthy (obj (field k v d)) = true

-- `bool(d.get(k))`
abbrev pub get_truthy : String → Dict → Bool
get_truthy k d = elim (get k d) [ none ↦ false | some v ↦ truthy v ]

-- `d.get(k, default)`
abbrev pub get_or : String → Value → Dict → Value
get_or k v d = elim (get k d) [ none ↦ v | some w ↦ w ]

-- a text or none: the fields that hold a node id or a class name, where null counts as absent
abbrev pub as_text : Option Value → Option String
as_text (some (str s)) = some s
as_text _ = none

abbrev pub text_items : List String → Items
text_items [] = nil
text_items (s ∷ ss) = cons (str s) (text_items ss)

pub get-put :
    (k j : String) (v : Value) (d : Dict) → get j (put k v d) ≡ (if k == j then some v else get j d)
get-put k j v end = refl
get-put k j v (field i w d) = ground (arith, eq_iff k j, eq_iff i k, eq_iff i j, get-put k j v d)

-- a key that the second dict does not set keeps the value of the first
pub get-merge_absent : (k : String) (a b : Dict) → get k b ≡ none → get k (merge a b) ≡ get k a
get-merge_absent k a end h = refl
get-merge_absent k a (field j v b) h =
    ground (arith, get-put j k v a, get-merge_absent k (put j v a) b)

-- a key of either is a key of both together
pub contains-merge :
    (k : String) (a b : Dict)
    → (contains k a || contains k b) ≡ true
    → contains k (merge a b) ≡ true
contains-merge k a end h = ground arith
contains-merge k a (field j v b) h = ground (arith, get-put j k v a, contains-merge k (put j v a) b)
