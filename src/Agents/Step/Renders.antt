-- ===== src/Agents/Step/Renders.antt =====
-- Rendering the MCP servers of an agent step writes no row of the table of steps.
use jarvis_awf.Prelude.{
  String, Bool, true, false, not, Option, none, some, List, [], ◌∷◌, member, if◌then◌else◌,
}
use jarvis_awf.Prelude.Table.{Table}
use jarvis_awf.Json.{nil, Dict, Items}
use jarvis_awf.Exec.{Result, ok, err, policy_denied, pure, raise, attempt, ◌>>=◌, ◌>>◌}
use jarvis_awf.Exec.Inversion.{>>=-Preserves}
use jarvis_awf.Exec.Preservation.{if-Preserves, read-Preserves}
use jarvis_awf.Database.{World, M, Step, ObjectPath, read_disk, on_disk, write_event}
use jarvis_awf.Registry.Resolve.{resolve_registry_object}
use jarvis_awf.Registry.Resolve.Reads.{disk-Keeps, resolve_registry_object-Keeps}
use jarvis_awf.Agents.{AgentInvocation, AgentOutside, McpServer, Rendered, step_error}
use jarvis_awf.Agents.Profiles.{is_trusted, name_of, version_of}
use jarvis_awf.Agents.Servers.{
  kept, rendered_event, with_render, home_overlay, ToolCheck, allowed_mcp_tools, Servers,
  mcp_ref_skipped, judge_server, load_server, on_trust, on_path, resolve_mcp_servers,
  render_servers, with_secrets, with_servers, guarded_mcp_adapters, apply_mcp,
}
use jarvis_awf.Agents.Servers.Reads.{tools-Keeps}
use jarvis_awf.Agents.Step.Lookups.{On, KeepsRows}

module _ (Q : Table Step → Type 0) (out : AgentOutside) where
  abbrev At : World → Type 0
  At = On Q out

  abbrev Rows : {A : Type 0} → M A → Type 0
  Rows m = KeepsRows Q out m

  module _ (run_id step_id actor : String) (refs : List String) where
    skip-Keeps :
        {A : Type 0} (ref reason : String) (error : Option String) (tools : Items) (rest : M A)
        → Rows rest
        → Rows (mcp_ref_skipped out run_id step_id actor ref reason error tools >> rest)
    unfolding mcp_ref_skipped
    skip-Keeps ref reason error tools rest h w k = h _ k

    judge-Keeps :
        (rest : M (Servers out)) (ref : String) (path : ObjectPath) (server : McpServer)
        (check : ToolCheck)
        → Rows rest
        → Rows (judge_server out run_id step_id actor refs rest ref path server check)
    unfolding judge_server
    judge-Keeps rest ref path server check h =
        if-Preserves At _
          (mcp_ref_skipped out run_id step_id actor ref "disallowed_tools" none check.skipped
            >> rest)
          (read_disk (out.file_digest path) >>= with_digest)
          (skip-Keeps ref "disallowed_tools" none check.skipped rest h)
          (disk-Keeps At (out.file_digest path) with_digest (λ digest.
            >>=-Preserves At rest
              (λ o. pure (kept out run_id step_id actor refs ref digest server check o)) h
              (λ o w g. g)))
      where
        with_digest : String → M (Servers out)
        with_digest digest =
            rest >>= λ o. pure (kept out run_id step_id actor refs ref digest server check o)

    load-Keeps :
        (rest : M (Servers out)) (ref : String) (path : ObjectPath)
        → Rows rest
        → Rows (load_server out run_id step_id actor refs rest ref path)
    unfolding load_server
    load-Keeps rest ref path h = disk-Keeps At (out.load_mcp_server path) judged (λ server.
        >>=-Preserves At (allowed_mcp_tools out server.name refs server.tools)
          (judge_server out run_id step_id actor refs rest ref path server)
          (tools-Keeps At out server.name refs server.tools)
          (λ check. judge-Keeps rest ref path server check h))
      where
        judged : McpServer → M (Servers out)
        judged server =
            allowed_mcp_tools out server.name refs server.tools
            >>= judge_server out run_id step_id actor refs rest ref path server

    path-Keeps :
        (rest : M (Servers out)) (ref : String) (r : Result ObjectPath)
        → Rows rest
        → Rows (on_path out run_id step_id actor refs rest ref r)
    unfolding on_path on_trust
    path-Keeps rest ref (err exc) h = skip-Keeps ref "unresolvable" (some exc.text) nil rest h
    path-Keeps rest ref (ok path) h =
        read-Preserves At (is_trusted path) (on_trust out run_id step_id actor refs rest ref path)
          trust-Keeps
      where
        trust-Keeps : (b : Bool) → Rows (on_trust out run_id step_id actor refs rest ref path b)
        trust-Keeps false = skip-Keeps ref "untrusted" none nil rest h
        trust-Keeps true = load-Keeps rest ref path h

    servers-Keeps :
        (mcp_refs : List String) → Rows (resolve_mcp_servers out run_id step_id actor refs mcp_refs)
    unfolding resolve_mcp_servers
    servers-Keeps [] = λ w h. h
    servers-Keeps (ref ∷ others) =
        >>=-Preserves At
          (attempt (resolve_registry_object out.files "mcp" (name_of ref) (version_of ref)))
          (on_path out run_id step_id actor refs
            (resolve_mcp_servers out run_id step_id actor refs others) ref)
          (resolve_registry_object-Keeps At out.files "mcp" (name_of ref) (version_of ref))
          (λ r.
            path-Keeps (resolve_mcp_servers out run_id step_id actor refs others) ref r
              (servers-Keeps others))

    render-Keeps :
        (i : AgentInvocation) (found : Servers out) (servers : List McpServer)
        → Rows (with_servers out run_id step_id actor refs i servers found)
    unfolding with_servers with_secrets render_servers
    render-Keeps i found [] = λ w h. h
    render-Keeps i found (s ∷ ss) =
        >>=-Preserves At (λ w. (out.resolve_secrets found.servers w, w))
          (with_secrets out run_id step_id actor refs i found (out.renderer actor)) (λ w h. h)
          (secrets-Keeps (out.renderer actor))
      where
        secrets-Keeps :
            (r : Option (List McpServer → Dict → Rendered)) (d : Dict)
            → Rows (with_secrets out run_id step_id actor refs i found r d)
        secrets-Keeps none d = λ w h. h
        secrets-Keeps (some r) d =
            >>=-Preserves At (on_disk (out.write_rendered (r found.servers d))) after (λ w h. h)
              (λ home w h. h)
          where
            after : String → M AgentInvocation
            after home =
                write_event (rendered_event out run_id step_id actor refs found.refs_with_digest)
                >> pure (record i {
                  constraints =
                      with_render out run_id step_id actor refs (r found.servers d)
                        (home_overlay out run_id step_id actor refs (r found.servers d) home)
                        i.constraints;
                })

    pub apply_mcp-Keeps :
        (has_repo : Bool) (mcp_refs : List String) (i : AgentInvocation)
        → Rows (apply_mcp out run_id step_id actor refs has_repo mcp_refs i)
    unfolding apply_mcp
    apply_mcp-Keeps has_repo [] i = λ w h. h
    apply_mcp-Keeps has_repo (ref ∷ others) i =
        if-Preserves At (not has_repo) (pure i) guarded (λ w h. h)
          (if-Preserves At (not (member actor (guarded_mcp_adapters out run_id step_id actor refs)))
            (raise (step_error policy_denied "MCP refs require an adapter pre-tool Guard hook"))
            rendered (λ w h. h)
            (>>=-Preserves At (resolve_mcp_servers out run_id step_id actor refs (ref ∷ others))
              (λ found. with_servers out run_id step_id actor refs i found.servers found)
              (servers-Keeps (ref ∷ others)) (λ found. render-Keeps i found found.servers)))
      where
        rendered : M AgentInvocation
        rendered = resolve_mcp_servers out run_id step_id actor refs (ref ∷ others) >>= λ found.
            with_servers out run_id step_id actor refs i found.servers found

        guarded : M AgentInvocation
        guarded =
            if not (member actor (guarded_mcp_adapters out run_id step_id actor refs))
            then raise (step_error policy_denied "MCP refs require an adapter pre-tool Guard hook")
            else rendered
