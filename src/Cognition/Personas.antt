-- ===== src/Cognition/Personas.antt =====
-- backend/src/awf/registry/persona.py from a parsed persona on.
use jarvis_awf.Prelude.{String, ◌<>◌, Bool, List, [], ◌∷◌, map, select, not, ◌==◌}
use jarvis_awf.Prelude.Int.{ℤ}
use jarvis_awf.Prelude.Text.{strip, join}
use jarvis_awf.Json.{Dict}
use jarvis_awf.Json.Convert.{str_of_int}
use jarvis_awf.Cognition.Prompts.{Message}

pub data TraitLevel : Type 0 where
  no_trait low medium high strong : TraitLevel

pub data HumorLevel : Type 0 where
  no_humor light some_humor much_humor dry : HumorLevel

pub record PersonaStyle : Type 0 where
  pub max_words_default : ℤ
  pub structure : String
  pub do_items : List String
  pub avoid : List String

pub record PersonaTraits : Type 0 where
  pub warmth : TraitLevel
  pub assertiveness : TraitLevel
  pub detail : TraitLevel
  pub humor : HumorLevel

pub record PersonaExample : Type 0 where
  pub user : String
  pub assistant : String

pub record Persona : Type 0 where
  pub name : String
  pub version : String
  pub display_name : String
  pub description : String
  pub locale : String
  pub system : String
  pub style : PersonaStyle
  pub traits : PersonaTraits
  pub examples : List PersonaExample
  pub generation : Dict
  pub enabled : Bool

pub record CompiledPersona : Type 0 where
  pub ref : String
  pub system_text : String
  pub example_messages : List Message
  pub generation : Dict

-- WARMTH_INSTRUCTIONS
abbrev pub warmth_instructions : TraitLevel → String
warmth_instructions TraitLevel.no_trait = "Use direct helpfulness with no extra warmth."
warmth_instructions TraitLevel.low = "Keep warmth minimal and practical."
warmth_instructions TraitLevel.medium = "Use a calm, friendly tone without extra reassurance."
warmth_instructions TraitLevel.high =
    "Use clearly warm and supportive phrasing without overstating certainty."
warmth_instructions TraitLevel.strong =
    "Use strongly warm and encouraging phrasing while staying truthful."

-- ASSERTIVENESS_INSTRUCTIONS
abbrev pub assertiveness_instructions : TraitLevel → String
assertiveness_instructions TraitLevel.no_trait = "Avoid recommendations unless one is requested."
assertiveness_instructions TraitLevel.low =
    "Offer suggestions gently and avoid sounding commanding."
assertiveness_instructions TraitLevel.medium =
    "Give clear recommendations while allowing uncertainty."
assertiveness_instructions TraitLevel.high =
    "State the recommended path plainly when evidence supports it."
assertiveness_instructions TraitLevel.strong =
    "Be decisive and action-oriented when the answer is clear."

-- DETAIL_INSTRUCTIONS
abbrev pub detail_instructions : TraitLevel → String
detail_instructions TraitLevel.no_trait = "Keep detail to the minimum needed for the answer."
detail_instructions TraitLevel.low = "Keep details sparse and action-focused."
detail_instructions TraitLevel.medium = "Include enough detail to explain the answer."
detail_instructions TraitLevel.high = "Add useful context and tradeoffs when they help."
detail_instructions TraitLevel.strong =
    "Provide fuller context, tradeoffs, and reasoning when useful."

-- HUMOR_INSTRUCTIONS
abbrev pub humor_instructions : HumorLevel → String
humor_instructions HumorLevel.no_humor = "Use no humor."
humor_instructions HumorLevel.light = "Use light humor rarely and only when natural."
humor_instructions HumorLevel.some_humor =
    "Use occasional light humor on low-risk topics; omit it when the answer carries risk."
humor_instructions HumorLevel.much_humor =
    "Use humor readily on low-risk topics; skip it for analysis, troubleshooting, and reliability details."
humor_instructions HumorLevel.dry =
    "Use at most one dry aside when it sharpens the answer; never force it."

-- the items of a list as lines under a title
abbrev listed : String → List String → String
listed title items = join "\n" (title ∷ map (λ item. "- " <> item) items)

abbrev contract : Persona → String
contract p = join "\n" (
    "Response contract:"
    ∷ ("- Default maximum answer length: "
        <> (str_of_int p.style.max_words_default <> " words unless more detail is requested."))
    ∷ ("- Structure: " <> p.style.structure)
    ∷ [])

abbrev behavior : Persona → String
behavior p = join "\n" (
    "Behavior traits:"
    ∷ ("- Warmth: " <> warmth_instructions p.traits.warmth)
    ∷ ("- Assertiveness: " <> assertiveness_instructions p.traits.assertiveness)
    ∷ ("- Detail: " <> detail_instructions p.traits.detail)
    ∷ ("- Humor: " <> humor_instructions p.traits.humor)
    ∷ [])

abbrev blocks : Persona → List String
blocks p =
    strip p.system
    ∷ contract p
    ∷ behavior p
    ∷ listed "Do:" p.style.do_items
    ∷ listed "Avoid:" p.style.avoid
    ∷ "Persona constraints do not override capability, routing, memory, or safety policy."
    ∷ []

messages : List PersonaExample → List Message
messages [] = []
messages (e ∷ es) =
    record { role = "user"; content = e.user }
    ∷ record { role = "assistant"; content = e.assistant }
    ∷ messages es

abbrev pub persona_ref : Persona → String
persona_ref p = p.name <> ("@" <> p.version)

unfoldable pub compile_persona : Persona → CompiledPersona
unfolding messages
compile_persona p = record {
  ref = persona_ref p;
  system_text = join "\n\n" (select (λ b. not (b == "")) (blocks p));
  example_messages = messages p.examples;
  generation = p.generation;
}
