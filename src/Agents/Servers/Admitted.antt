-- ===== src/Agents/Servers/Admitted.antt =====
-- The MCP servers that reach an adapter.
use jarvis_awf.Prelude.{String, ◌≡◌, true, List, All}
use jarvis_awf.Exec.{ok}
use jarvis_awf.Database.{World, M, ObjectPath}
use jarvis_awf.Registry.Capability.{ref}
use jarvis_awf.Registry.Resolve.{resolve_registry_object}
use jarvis_awf.Agents.{AgentOutside, McpServer}
use jarvis_awf.Agents.Profiles.{is_trusted, name_of, version_of}
use jarvis_awf.Agents.Servers.{Servers}
use jarvis_awf.Agents.Servers.Allowed.{Same, IsAdmitted}

module _ (out : AgentOutside) (refs : List String) (start : World) where
  -- a ref names the object
  abbrev pub IsNamed : ObjectPath → Type 0
  IsNamed path =
      (ref : String) × (v : World) × Same out refs start v
      × ((resolve_registry_object out.files "mcp" (name_of ref) (version_of ref) v).0 ≡ ok path)

  -- the server is the one in the file of a trusted object that a ref names, and all of its tools are admitted
  pub record Trusted (s : McpServer) : Type 0 where
    pub path : ObjectPath
    pub named : IsNamed path
    pub trusted : is_trusted path start ≡ true
    pub loaded : out.load_mcp_server path start.disk ≡ ok s
    pub admitted : All (IsAdmitted out refs start s.name) s.tools

  module _ (run_id step_id actor : String) where
    abbrev AllTrusted : Servers out → Type 0
    AllTrusted found = All Trusted found.servers

    -- whatever the rest returns is fine
    abbrev Good : M (Servers out) → Type 0
    Good m =
        (w : World) (found : Servers out)
        → Same out refs start w
        → (m w).0 ≡ ok found
        → AllTrusted found
