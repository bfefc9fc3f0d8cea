-- ===== src/Cognition/Prompts.antt =====
-- backend/src/awf/cognition/envelope.py and render.py, and backend/src/awf/registry/persona.py from
-- a parsed persona on.
pub mod Trust
use jarvis_awf.Prelude.{
  String, ◌<>◌, Bool, true, false, not, ◌&&◌, Option, none, some, List, [], ◌∷◌, ◌++◌, map, ◌==◌,
  select, member, if◌then◌else◌,
}
use jarvis_awf.Prelude.Int.{ℤ}
use jarvis_awf.Prelude.Text.{strip, is_blank, join}
use jarvis_awf.Json.{Dict}

pub data Authority : Type 0 where
  application persona contract session memory retrieval skill tool user : Authority

abbrev authority_name : Authority → String
authority_name application = "application"
authority_name persona = "persona"
authority_name contract = "contract"
authority_name session = "session"
authority_name memory = "memory"
authority_name retrieval = "retrieval"
authority_name skill = "skill"
authority_name tool = "tool"
authority_name user = "user"

-- SYSTEM_AUTHORITIES
abbrev pub is_system : Authority → Bool
is_system application = true
is_system persona = true
is_system contract = true
is_system _ = false

pub data ContentType : Type 0 where
  instruction style context result input content_contract : ContentType

abbrev content_name : ContentType → String
content_name instruction = "instruction"
content_name style = "style"
content_name context = "context"
content_name result = "result"
content_name input = "input"
content_name content_contract = "contract"

pub record PromptSegment : Type 0 where
  pub authority : Authority
  pub content_type : ContentType
  pub trusted : Bool
  pub text : String

pub record Message : Type 0 where
  pub role : String
  pub content : String

pub record PromptEnvelope : Type 0 where
  pub segments : List PromptSegment
  pub example_messages : List Message
  pub generation : Dict

-- _header
abbrev header : PromptSegment → String
header s =
    "["
    <> (authority_name s.authority
        <> ("/"
            <> (content_name s.content_type <> ((if s.trusted then "" else ", untrusted") <> "]"))))

-- _render_segment
abbrev pub render_segment : PromptSegment → String
render_segment s = header s <> ("\n" <> strip s.text)

unfoldable pub rendered : List PromptSegment → List String
rendered [] = []
rendered (s ∷ ss) =
    let rest = rendered ss in if is_blank s.text then rest else render_segment s ∷ rest

unfoldable pub render_flat : PromptEnvelope → String
render_flat e = join "\n\n" (rendered e.segments)

pub record ChatPrompt : Type 0 where
  pub system_text : String
  pub user_text : String
  pub messages : List Message
  pub generation : Dict

-- the loop of render_chat: the parts of the system and those of the user
unfoldable pub parts : List PromptSegment → List String × List String
parts [] = ([], [])
parts (s ∷ ss) =
    let (system_parts, user_parts) = parts ss in
    if is_blank s.text
    then (system_parts, user_parts)
    else if s.trusted && is_system s.authority
    then (render_segment s ∷ system_parts, user_parts)
    else (system_parts, render_segment s ∷ user_parts)

abbrev message_unless_empty : String → String → List Message
message_unless_empty role text =
    if text == "" then [] else record { role = role; content = text } ∷ []

unfoldable pub render_chat : PromptEnvelope → ChatPrompt
render_chat e =
    let (system_parts, user_parts) = parts e.segments in
    let system_text = join "\n\n" system_parts in
    let user_text = join "\n\n" user_parts in
    record {
      system_text = system_text;
      user_text = user_text;
      messages =
          message_unless_empty "system" system_text
          ++ (e.example_messages ++ message_unless_empty "user" user_text);
      generation = e.generation;
    }
