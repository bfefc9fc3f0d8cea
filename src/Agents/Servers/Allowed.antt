-- ===== src/Agents/Servers/Allowed.antt =====
-- The tools of an MCP server that an agent may use.
use jarvis_awf.Prelude.{
  String, ◌≡◌, refl, sym, ap, Bool, true, false, not, ◌&&◌, ◌||◌, List, [], ◌∷◌, ◌==◌, eq_iff,
  arith, member, if◌then◌else◌, All,
}
use mathlib.Core.Path.{subst}
use jarvis_awf.Exec.{Result, ok, err, pure}
use jarvis_awf.Exec.Inversion.{>>=-Returned, ok-injective}
use jarvis_awf.Database.{World}
use jarvis_awf.Registry.Capability.{CapabilityRecord, ref}
use jarvis_awf.Agents.{AgentOutside}
use jarvis_awf.Agents.Servers.{
  ToolCheck, same_tools, has_tools, find_tool, admits, is_mcp_tool, check_tool, allowed_mcp_tools,
}
use jarvis_awf.Agents.Servers.Reads.{find-Keeps}

module _ (out : AgentOutside) (refs : List String) (start : World) where
  -- the registry and the files are those of the start
  abbrev pub Same : World → Type 0
  Same v = (v.registry_index ≡ start.registry_index) × (v.disk ≡ start.disk)

  -- the capability of the tool was found, is that of a tool of this provider, and the agent has it
  abbrev pub IsAdmitted : String → String → Type 0
  IsAdmitted provider tool =
      (c : CapabilityRecord) × (v : World) × Same v
      × ((find_tool out tool v).0 ≡ ok c)
      × (admits out provider refs c ≡ true)

  check_tool-IsAdmitted :
      (provider tool : String) (found : Result CapabilityRecord) (v : World) (others : ToolCheck)
      → Same v
      → (find_tool out tool v).0 ≡ found
      → All (IsAdmitted provider) others.allowed_tools
      → All (IsAdmitted provider) (check_tool out provider refs tool found others).allowed_tools
  unfolding check_tool
  check_tool-IsAdmitted provider tool (err e) v others s f h = h
  check_tool-IsAdmitted provider tool (ok c) v others s f h =
      from (member (ref c) refs) (is_mcp_tool c.identity.type) (c.identity.provider == provider) _ _
        _ h h (λ a. ((c, v, s, f, a), h))
    where
      Fine : ToolCheck → Type 0
      Fine t = All (IsAdmitted provider) t.allowed_tools

      from :
          (a b d : Bool) (x y z : ToolCheck)
          → Fine x
          → Fine y
          → (a && (b && d) ≡ true → Fine z)
          → Fine (if not a then x else if not b || not d then y else z)
      from false b d x y z p q r = p
      from true false d x y z p q r = q
      from true true false x y z p q r = q
      from true true true x y z p q r = r refl

  pub allowed_mcp_tools-IsAdmitted :
      (provider : String) (tools : List String) (w : World) {check : ToolCheck}
      → Same w
      → (allowed_mcp_tools out provider refs tools w).0 ≡ ok check
      → All (IsAdmitted provider) check.allowed_tools
  unfolding allowed_mcp_tools
  allowed_mcp_tools-IsAdmitted provider [] w {check} s h =
      subst (λ (c : ToolCheck). All (IsAdmitted provider) c.allowed_tools) (ok-injective h) tt
  allowed_mcp_tools-IsAdmitted provider (tool ∷ tools) w {check} s h =
      let found = (find_tool out tool w).0 in
      let r =
        >>=-Returned (allowed_mcp_tools out provider refs tools)
          (λ o. pure (check_tool out provider refs tool found o)) (find_tool out tool w).1 h in
      subst (λ (c : ToolCheck). All (IsAdmitted provider) c.allowed_tools) (ok-injective r.second)
        (check_tool-IsAdmitted provider tool found w r.value s refl (
          allowed_mcp_tools-IsAdmitted provider tools (find_tool out tool w).1
            (find-Keeps Same out tool w s) r.first))

  pub allowed_mcp_tools-none :
      (provider : String) (tools : List String) (w : World) {check : ToolCheck}
      → has_tools tools ≡ false
      → (allowed_mcp_tools out provider refs tools w).0 ≡ ok check
      → check.allowed_tools ≡ tools
  unfolding allowed_mcp_tools
  allowed_mcp_tools-none provider [] w n h =
      ap (λ (c : ToolCheck). c.allowed_tools) (sym (ok-injective h))
  allowed_mcp_tools-none provider (t ∷ ts) w n h = absurd (cc n)

  pub same_tools-eq : (ss ts : List String) → same_tools ss ts ≡ true → ss ≡ ts
  same_tools-eq [] [] h = refl
  same_tools-eq [] (t ∷ ts) h = absurd (cc h)
  same_tools-eq (s ∷ ss) [] h = absurd (cc h)
  same_tools-eq (s ∷ ss) (t ∷ ts) h = ground (arith, eq_iff s t, same_tools-eq ss ts)
