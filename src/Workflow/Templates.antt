-- ===== src/Workflow/Templates.antt =====
-- The texts of backend/src/awf/workflow/engine.py and io_schema.py that regular expressions read:
-- the keys of the engine's context, and the templates of the outputs. A space is one of Latin-1.
use Prim.Native.Char.{Char, code}
use jarvis_awf.Prelude.{
  ℕ, String, ◌<>◌, ◌≡◌, refl, Bool, true, false, not, ◌&&◌, ◌||◌, Option, none, some, ◌==◌, leb,
  nat_eq, if◌then◌else◌,
}
use jarvis_awf.Json.{Value, null, str, Dict, end, field, get_or}

abbrev between : ℕ → ℕ → ℕ → Bool
between a b n = leb a n && leb n b

module _ (alnum : ℕ → Bool) where
  -- \w
  abbrev pub is_word : Char → Bool
  is_word c =
      let n = code c in
      between 48 57 n || between 65 90 n || between 97 122 n || nat_eq n 95 || leb 128 n && alnum n

  -- re.sub(r"\W+", "_", s), where the flag tells that a run was begun
  collapse : Bool → String → String
  collapse begun String.[] = ""
  collapse begun (String.◌∷◌ c s) =
      let word = String.◌∷◌ c (collapse false s) in
      let other = collapse true s in
      if is_word c then word else if begun then other else "_" <> other

-- .strip("_")
strip_start : String → String
strip_start String.[] = ""
strip_start (String.◌∷◌ c s) =
    let rest = strip_start s in if nat_eq (code c) 95 then rest else String.◌∷◌ c s

strip_end : String → String
strip_end String.[] = ""
strip_end (String.◌∷◌ c s) =
    let rest = strip_end s in if nat_eq (code c) 95 && rest == "" then "" else String.◌∷◌ c rest

module _ (alnum : ℕ → Bool) where
  key_part : String → String
  unfolding collapse strip_start strip_end
  key_part s = strip_end (strip_start (collapse alnum false s))

  -- _engine_context_key
  unfoldable pub engine_context_key : String → String → String
  unfolding key_part
  engine_context_key node_id output_key = key_part node_id <> ("_" <> key_part output_key)

-- \s
abbrev is_space : Char → Bool
is_space c = let n = code c in between 9 13 n || between 28 32 n || nat_eq n 133 || nat_eq n 160

skip_spaces : String → String
skip_spaces String.[] = ""
skip_spaces (String.◌∷◌ c s) =
    let rest = skip_spaces s in if is_space c then rest else String.◌∷◌ c s

-- what follows a prefix
after : String → String → Option String
after String.[] s = some s
after (String.◌∷◌ p ps) String.[] = none
after (String.◌∷◌ p ps) (String.◌∷◌ c s) =
    let rest = after ps s in if nat_eq (code p) (code c) then rest else none

-- the longest run of word characters, and what follows it
split_word : (ℕ → Bool) → String → String × String
split_word alnum String.[] = ("", "")
split_word alnum (String.◌∷◌ c s) =
    let (word, rest) = split_word alnum s in
    if is_word alnum c then (String.◌∷◌ c word, rest) else ("", String.◌∷◌ c s)

abbrev bind : Option String → (String → Option String) → Option String
bind none f = none
bind (some s) f = f s

-- `\s*\}\}$` behind the name, where `$` also takes a last newline
closes : String × String → Option String
unfolding skip_spaces after
closes (word, rest) =
    bind (after "}}" (skip_spaces rest))
      λ tail. if not (word == "") && (tail == "" || tail == "\n") then some word else none

-- _TEMPLATE_RE.match(template).group(1)
unfoldable pub template_name : (ℕ → Bool) → String → Option String
unfolding after skip_spaces split_word closes
template_name alnum s =
    bind (after "{{" s)
      λ inner. bind (after "engine." (skip_spaces inner)) λ named. closes (split_word alnum named)

abbrev render : (ℕ → Bool) → Dict → Value → Value
render alnum context (str template) = elim (template_name alnum template) [
  | none ↦ str template
  | some name ↦ get_or name null context
]
render alnum context v = v

-- render_outputs, on a spec whose keys differ
unfoldable pub render_outputs : (ℕ → Bool) → Dict → Dict → Dict
render_outputs alnum context end = end
render_outputs alnum context (field key template spec) =
    field key (render alnum context template) (render_outputs alnum context spec)

key_of_names : engine_context_key (λ _. false) "-gate one" "a.b" ≡ "gate_one_a_b"
unfolding engine_context_key key_part collapse strip_start strip_end
key_of_names = refl

name_of_template : template_name (λ _. false) "{{ engine.gate_passed }}" ≡ some "gate_passed"
unfolding template_name after skip_spaces split_word closes
name_of_template = refl

name_of_text : template_name (λ _. false) "engine.gate_passed" ≡ none
unfolding template_name after skip_spaces split_word closes
name_of_text = refl
