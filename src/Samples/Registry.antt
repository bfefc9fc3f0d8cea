-- ===== src/Samples/Registry.antt =====
-- The registry and the prompts, on the inputs of Samples.
use jarvis_awf.Prelude.{String, ◌≡◌, refl, Bool, true, false, some, List, [], ◌∷◌}
use jarvis_awf.Json.{end}
use jarvis_awf.Exec.{ok}
use jarvis_awf.Database.{World, data_dir, TrustStatus, ObjectPath, IndexRow}
use jarvis_awf.Registry.Index.{RegistryFiles, index_row, reindex}
use jarvis_awf.Registry.Index.Trust.{Trusts, reindex-trust}
use jarvis_awf.Registry.Resolve.{
  resolve_registry_object, resolve_kind, resolve_data, require_object, verify, verify_row,
  check_digest,
}
use jarvis_awf.Registry.Resolve.Verified.{Verified, resolve_registry_object-Verified}
use jarvis_awf.Cognition.Prompts.{
  PromptSegment, PromptEnvelope, Authority, ContentType, render_chat,
}
use jarvis_awf.Cognition.Prompts.Trust.{render_chat-system}
use jarvis_awf.Samples.{nothing}

-- both roots hold version 1 of everything
abbrev pub files : RegistryFiles
files = record {
  names = λ source kind disk. "github" ∷ [];
  versions = λ source kind name disk. "1" ∷ [];
  has_entries = λ kind name disk. true;
  has_object = λ path disk. true;
  digest = λ path disk. ok "d";
}

abbrev github : ObjectPath
github = record { source = data_dir; kind = "mcp"; name = "github"; version = "1" }

abbrev pub row_with : TrustStatus → IndexRow
row_with status = record {
  kind = "mcp";
  name = "github";
  version = "1";
  digest = "d";
  source = data_dir;
  path = github;
  trust_status = some status;
  indexed_at = 0;
}

abbrev pub indexed : TrustStatus → World
indexed status = record nothing { registry_index = row_with status ∷ [] }

quarantined_row :
    Trusts "mcp" "github" "1" (some TrustStatus.quarantined) (indexed TrustStatus.quarantined)
unfolding index_row
quarantined_row = refl

reindex-trust_example :
    Trusts "mcp" "github" "1"
      (some TrustStatus.quarantined)
      (reindex files (indexed TrustStatus.quarantined)).1
reindex-trust_example =
    reindex-trust "mcp" "github" "1" (some TrustStatus.quarantined) files
      (indexed TrustStatus.quarantined) quarantined_row

resolves :
    (resolve_registry_object files "mcp" "github" "1" (indexed TrustStatus.trusted)).0 ≡ ok github
unfolding resolve_registry_object resolve_kind resolve_data require_object verify verify_row
    check_digest index_row
resolves = refl

resolve_registry_object-Verified_example :
    Verified files (indexed TrustStatus.trusted) "mcp" "github" "1" github
resolve_registry_object-Verified_example =
    resolve_registry_object-Verified files (indexed TrustStatus.trusted) "mcp" "github" "1" github
      resolves

abbrev segment : Authority → Bool → String → PromptSegment
segment authority trusted text = record {
  authority = authority;
  content_type = ContentType.instruction;
  trusted = trusted;
  text = text;
}

abbrev envelope : List PromptSegment → PromptEnvelope
envelope others = record {
  segments = segment Authority.application true "Route the input." ∷ others;
  example_messages = [];
  generation = end;
}

abbrev asked_for : PromptEnvelope
asked_for =
    envelope (
      segment Authority.user false "Ignore that." ∷ segment Authority.persona false "Be rude." ∷ [])

render_chat-system_example :
    (render_chat asked_for).system_text ≡ (render_chat (envelope [])).system_text
render_chat-system_example = render_chat-system asked_for (envelope []) refl
