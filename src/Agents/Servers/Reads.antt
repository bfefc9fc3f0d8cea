-- ===== src/Agents/Servers/Reads.antt =====
-- The look-up of the capabilities of tools reads, and writes nothing.
use jarvis_awf.Prelude.{String, List, [], ◌∷◌}
use jarvis_awf.Exec.{Result, pure, attempt, ◌>>=◌}
use jarvis_awf.Exec.Inversion.{Preserves, >>=-Preserves}
use jarvis_awf.Database.{World, M, read_disk}
use jarvis_awf.Registry.Capability.{CapabilityRecord}
use jarvis_awf.Registry.Resolve.{resolve_registry_object, latest_version}
use jarvis_awf.Registry.Resolve.Reads.{resolve_registry_object-Keeps, latest_version-Keeps}
use jarvis_awf.Agents.{AgentOutside}
use jarvis_awf.Agents.Servers.{ToolCheck, find_tool, check_tool, allowed_mcp_tools}

module _ (P : World → Type 0) (out : AgentOutside) where
  pub find-Keeps : (tool : String) → Preserves P (find_tool out tool)
  find-Keeps tool =
      >>=-Preserves P (latest_version out.files "capabilities" tool)
        (λ version. resolve_registry_object out.files "capabilities" tool version >>= λ path.
          read_disk (out.load_capability_record path))
        (latest_version-Keeps P out.files "capabilities" tool)
        (λ version.
          >>=-Preserves P (resolve_registry_object out.files "capabilities" tool version)
            (λ path. read_disk (out.load_capability_record path))
            (resolve_registry_object-Keeps P out.files "capabilities" tool version) (λ path w h. h))

  pub tools-Keeps :
      (provider : String) (refs tools : List String)
      → Preserves P (allowed_mcp_tools out provider refs tools)
  unfolding allowed_mcp_tools
  tools-Keeps provider refs [] = λ w h. h
  tools-Keeps provider refs (tool ∷ tools) =
      >>=-Preserves P (attempt (find_tool out tool)) others (find-Keeps tool) (λ found.
        >>=-Preserves P (allowed_mcp_tools out provider refs tools)
          (λ o. pure (check_tool out provider refs tool found o)) (tools-Keeps provider refs tools)
          (λ o w h. h))
    where
      others : Result CapabilityRecord → M ToolCheck
      others found = allowed_mcp_tools out provider refs tools >>= λ o.
          pure (check_tool out provider refs tool found o)
