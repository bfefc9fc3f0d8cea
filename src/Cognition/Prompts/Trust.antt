-- ===== src/Cognition/Prompts/Trust.antt =====
-- What may speak to a model with the voice of the system.
use jarvis_awf.Prelude.{◌≡◌, refl, sym, ap, ◌∙◌, Bool, ◌&&◌, List, [], ◌∷◌, arith, select}
use jarvis_awf.Prelude.Text.{join}
use jarvis_awf.Cognition.Prompts.{
  PromptSegment, PromptEnvelope, is_system, rendered, parts, render_chat,
}

-- a segment of the application, the persona or a contract that is trusted
abbrev pub speaks_for_system : PromptSegment → Bool
speaks_for_system s = s.trusted && is_system s.authority

parts-system : (ss : List PromptSegment) → (parts ss).0 ≡ rendered (select speaks_for_system ss)
unfolding parts rendered
parts-system [] = refl
parts-system (s ∷ ss) = ground (arith, parts-system ss)

-- Two envelopes whose trusted segments of the application, the persona and the contracts are the
-- same give a model the same system text, whatever else they hold: no memory, skill, tool result or
-- input of a user, and nothing untrusted, can change it.
pub render_chat-system :
    (e f : PromptEnvelope)
    → select speaks_for_system e.segments ≡ select speaks_for_system f.segments
    → (render_chat e).system_text ≡ (render_chat f).system_text
unfolding render_chat
render_chat-system e f h =
    ap (join "\n\n") (parts-system e.segments ∙ ap rendered h ∙ sym (parts-system f.segments))
