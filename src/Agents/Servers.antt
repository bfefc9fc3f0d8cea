-- ===== src/Agents/Servers.antt =====
-- The MCP servers that an agent step renders for its adapter.
pub mod Reads
pub mod Allowed
pub mod Admitted
use jarvis_awf.Prelude.{
  ℕ, String, ◌<>◌, Bool, true, false, not, ◌&&◌, ◌||◌, Option, none, some, List, [], ◌∷◌, ◌==◌,
  member, if◌then◌else◌,
}
use jarvis_awf.Json.{Value, str, arr, obj, Items, nil, cons, Dict, end, field, put, text_items}
use jarvis_awf.Exec.{Exn, Result, ok, err, policy_denied, pure, raise, gets, attempt, ◌>>=◌, ◌>>◌}
use jarvis_awf.Database.{World, M, ObjectPath, read_disk, on_disk, EventArgs, write_event}
use jarvis_awf.Registry.Capability.{CapabilityRecord, IdentityType, mcp_tool, ref}
use jarvis_awf.Registry.Resolve.{resolve_registry_object, latest_version}
use jarvis_awf.Agents.{AgentInvocation, AgentOutside, McpServer, Rendered, step_error}
use jarvis_awf.Agents.Profiles.{is_trusted, name_of, version_of}

abbrev pub is_mcp_tool : IdentityType → Bool
is_mcp_tool mcp_tool = true
is_mcp_tool _ = false

-- what _allowed_mcp_tools returns
pub record ToolCheck : Type 0 where
  pub allowed_tools : List String
  pub capability_refs : List String
  pub skipped : Items

abbrev no_tools : ToolCheck
no_tools = record { allowed_tools = []; capability_refs = []; skipped = nil }

-- tuple(tools) != server.tools
abbrev pub same_tools : List String → List String → Bool
same_tools [] [] = true
same_tools (s ∷ ss) (t ∷ ts) = s == t && same_tools ss ts
same_tools _ _ = false

abbrev pub has_tools : List String → Bool
has_tools [] = false
has_tools (t ∷ ts) = true

abbrev with_error : Option String → Dict → Dict
with_error none d = d
with_error (some text) d = if text == "" then d else put "error" (str text) d

abbrev with_skipped : Items → Dict → Dict
with_skipped nil d = d
with_skipped (cons v vs) d = put "tools" (arr (cons v vs)) d

module _ (out : AgentOutside) where
  abbrev skip_tool : Dict → ToolCheck → ToolCheck
  skip_tool d c = record c { skipped = cons (obj d) c.skipped }

  abbrev pub find_tool : String → M CapabilityRecord
  find_tool tool = latest_version out.files "capabilities" tool >>= λ version.
      resolve_registry_object out.files "capabilities" tool version >>= λ path.
      read_disk (out.load_capability_record path)

  abbrev reason_field : String → String → Dict → Dict
  reason_field tool reason rest = field "tool" (str tool) (field "reason" (str reason) rest)

  -- whether the agent may use the tool of this capability from this provider
  abbrev pub admits : String → List String → CapabilityRecord → Bool
  admits provider allowed_refs c =
      member (ref c) allowed_refs
      && (is_mcp_tool c.identity.type && (c.identity.provider == provider))

  -- on what the `try` gave
  unfoldable pub check_tool :
      String → List String → String → Result CapabilityRecord → ToolCheck → ToolCheck
  check_tool provider allowed_refs tool (err exc) others =
      skip_tool (reason_field tool "unresolvable" (field "error" (str exc.text) end)) others
  check_tool provider allowed_refs tool (ok c) others =
      if not (member (ref c) allowed_refs)
      then skip_tool
          (reason_field tool "not_in_agent_allowlist" (field "capability_ref" (str (ref c)) end))
          others
      else if not (is_mcp_tool c.identity.type) || not (c.identity.provider == provider)
      then skip_tool
          (reason_field tool "capability_provider_mismatch"
            (field "capability_ref" (str (ref c)) end))
          others
      else record others {
        allowed_tools = tool ∷ others.allowed_tools;
        capability_refs = ref c ∷ others.capability_refs;
      }

  -- _allowed_mcp_tools
  unfoldable pub allowed_mcp_tools : String → List String → List String → M ToolCheck
  allowed_mcp_tools provider allowed_refs [] = pure no_tools
  allowed_mcp_tools provider allowed_refs (tool ∷ tools) = attempt (find_tool tool) >>= λ found.
      allowed_mcp_tools provider allowed_refs tools >>= λ others.
      pure (check_tool provider allowed_refs tool found others)

  -- the servers and their refs with the digests
  pub record Servers : Type 0 where
    pub servers : List McpServer
    pub refs_with_digest : Items

  module _ (run_id step_id actor : String) where
    -- _mcp_ref_skipped
    unfoldable pub mcp_ref_skipped : String → String → Option String → Items → M String
    mcp_ref_skipped ref reason error tools = write_event (record {
      run = run_id;
      step = some step_id;
      prior = none;
      status = "mcp_ref_skipped";
      actor = actor;
      reason = "mcp_ref_skipped";
      payload =
          with_skipped tools
            (with_error error (field "ref" (str ref) (field "reason" (str reason) end)));
    })

    module _ (capability_refs : List String) where
      abbrev pub kept : String → String → McpServer → ToolCheck → Servers → Servers
      kept ref digest server c others = record {
        servers = record server { tools = c.allowed_tools } ∷ others.servers;
        refs_with_digest =
            cons
              (obj (
                field "ref" (str ref) (
                  field "digest" (str digest) (
                    field "tools" (arr (text_items c.allowed_tools))
                      (field "capabilities" (arr (text_items c.capability_refs)) end)))))
              others.refs_with_digest;
      }

      -- the server is kept, where all of its tools are allowed
      unfoldable pub judge_server :
          M (Servers) → String → ObjectPath → McpServer → ToolCheck → M Servers
      judge_server rest ref path server c =
          if has_tools server.tools && not (same_tools c.allowed_tools server.tools)
          then (mcp_ref_skipped ref "disallowed_tools" none c.skipped >> rest)
          else (read_disk (out.file_digest path) >>= λ digest.
              rest >>= λ others. pure (kept ref digest server c others))

      unfoldable pub load_server : M Servers → String → ObjectPath → M Servers
      load_server rest ref path = read_disk (out.load_mcp_server path) >>= λ server.
          allowed_mcp_tools server.name capability_refs server.tools
          >>= judge_server rest ref path server

      unfoldable pub on_trust : M Servers → String → ObjectPath → Bool → M Servers
      on_trust rest ref path false = mcp_ref_skipped ref "untrusted" none nil >> rest
      on_trust rest ref path true = load_server rest ref path

      -- on what the `try` gave
      unfoldable pub on_path : M Servers → String → Result ObjectPath → M Servers
      on_path rest ref (err exc) = mcp_ref_skipped ref "unresolvable" (some exc.text) nil >> rest
      on_path rest ref (ok path) = gets (is_trusted path) >>= on_trust rest ref path

      -- _resolve_mcp_servers
      unfoldable pub resolve_mcp_servers : List String → M Servers
      resolve_mcp_servers [] = pure (record { servers = []; refs_with_digest = nil })
      resolve_mcp_servers (ref ∷ refs) =
          attempt (resolve_registry_object out.files "mcp" (name_of ref) (version_of ref))
          >>= on_path (resolve_mcp_servers refs) ref

      abbrev pub rendered_event : Items → EventArgs
      rendered_event refs = record {
        run = run_id;
        step = some step_id;
        prior = none;
        status = "mcp_rendered";
        actor = actor;
        reason = "mcp_rendered";
        payload = field "servers" (arr refs) end;
      }

      abbrev with_args : List String → Dict → Dict
      with_args [] d = d
      with_args (a ∷ as_) d = put "mcp_extra_args" (arr (text_items (a ∷ as_))) d

      abbrev with_overlay : Dict → Dict → Dict
      with_overlay end d = d
      with_overlay (field k v e) d = put "mcp_env_overlay" (obj (field k v e)) d

      -- the constraints with the arguments and the environment of the render
      abbrev pub with_render : Rendered → Dict → Dict → Dict
      with_render r env d = with_overlay env (with_args r.extra_args d)

      abbrev pub home_overlay : Rendered → String → Dict
      home_overlay r home =
          if r.needs_home then put "HOME" (str home) r.env_overlay else r.env_overlay

      unfoldable pub render_servers : AgentInvocation → Servers → Rendered → M AgentInvocation
      render_servers invocation found r = do
        home ← on_disk (out.write_rendered r)
        write_event (rendered_event found.refs_with_digest)
        pure (record invocation {
          constraints = with_render r (home_overlay r home) invocation.constraints;
        })

      unfoldable pub with_secrets :
          AgentInvocation
          → Servers
          → Option (List McpServer → Dict → Rendered)
          → Dict
          → M AgentInvocation
      with_secrets invocation found none secrets = pure invocation
      with_secrets invocation found (some renderer) secrets =
          render_servers invocation found (renderer found.servers secrets)

      unfoldable pub with_servers : AgentInvocation → List McpServer → Servers → M AgentInvocation
      with_servers invocation [] found = pure invocation
      with_servers invocation (s ∷ ss) found =
          (λ w. (out.resolve_secrets found.servers w, w))
          >>= with_secrets invocation found (out.renderer actor)

      abbrev pub guarded_mcp_adapters : List String
      guarded_mcp_adapters = "copilot" ∷ []

      -- _apply_mcp
      unfoldable pub apply_mcp : Bool → List String → AgentInvocation → M AgentInvocation
      apply_mcp has_repo [] invocation = pure invocation
      apply_mcp has_repo (ref ∷ refs) invocation =
          if not has_repo
          then pure invocation
          else if not (member actor guarded_mcp_adapters)
          then raise (step_error policy_denied "MCP refs require an adapter pre-tool Guard hook")
          else (resolve_mcp_servers (ref ∷ refs) >>= λ found.
              with_servers invocation found.servers found)
