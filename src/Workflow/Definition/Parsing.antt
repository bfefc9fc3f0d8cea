-- ===== src/Workflow/Definition/Parsing.antt =====
-- What a parsed workflow guarantees.
use jarvis_awf.Prelude.{
  ◌≡◌, refl, ◌∙◌, true, false, List, [], ◌∷◌, arith, eq_iff, eq_refl, member, All,
}
use jarvis_awf.Exec.{Result, ok, err, plain, workflow_validation_error}
use jarvis_awf.Workflow.Nodes.{validate_node}
use jarvis_awf.Workflow.Definition.{
  Node, WorkflowDefinition, nodes, node, find_node, has_duplicates, node_ids, parse_workflow,
  validate_nodes,
}

find_node-All :
    (ns ms : List Node)
    → has_duplicates (node_ids ns) ≡ false
    → ((n : Node) → member n.id (node_ids ns) ≡ true → find_node n.id ms ≡ find_node n.id ns)
    → All (λ (n : Node). find_node n.id ms ≡ ok n) ns
unfolding find_node has_duplicates
find_node-All [] ms d h = tt
find_node-All (n ∷ ns) ms d h = (
  h n (rw eq_refl refl) ∙ rw eq_refl refl,
  find_node-All ns ms (ground arith) (λ m y. h m (ground arith) ∙ later m y),
)
  where
    later :
        (m : Node) → member m.id (node_ids ns) ≡ true → find_node m.id (n ∷ ns) ≡ find_node m.id ns
    later m y = ground (arith, eq_iff n.id m.id)

validate_nodes-All :
    (ns : List Node)
    → validate_nodes ns ≡ ok tt
    → All (λ (n : Node). validate_node n.fields ≡ ok tt) ns
unfolding validate_nodes
validate_nodes-All [] h = tt
validate_nodes-All (n ∷ ns) h = from (validate_nodes-All ns) (validate_node n.fields) refl h
  where
    from :
        (validate_nodes ns ≡ ok tt → All (λ (n : Node). validate_node n.fields ≡ ok tt) ns)
        → (r : Result (Unit {0})) → validate_node n.fields ≡ r
        → elim r [ ok u ↦ validate_nodes ns | err e ↦ err (plain workflow_validation_error e.text) ]
          ≡ ok tt
        → All (λ (n : Node). validate_node n.fields ≡ ok tt) (n ∷ ns)
    from rest (ok u) e g = (e, rest g)
    from rest (err x) e g = absurd (cc g)

-- every node is valid, and is found under its own id
pub record Usable (workflow : WorkflowDefinition) : Type 0 where
  pub valid : All (λ (n : Node). validate_node n.fields ≡ ok tt) (nodes workflow)
  pub found : All (λ (n : Node). node workflow n.id ≡ ok n) (nodes workflow)

nodes-Usable :
    (raw : WorkflowDefinition)
    → validate_nodes (nodes raw) ≡ ok tt
    → has_duplicates (node_ids (nodes raw)) ≡ false
    → Usable raw
unfolding node
nodes-Usable raw v d = record {
  valid = validate_nodes-All (nodes raw) v;
  found = find_node-All (nodes raw) (nodes raw) d (λ n y. refl);
}

-- A workflow that was parsed is the one that was read, and every node of it is valid and is found
-- under its own id.
pub parse_workflow-Usable :
    (raw workflow : WorkflowDefinition)
    → parse_workflow raw ≡ ok workflow
    → (workflow ≡ raw) × Usable workflow
unfolding parse_workflow
parse_workflow-Usable raw workflow h =
    let (same, v, d) = parsed in (same, rw same (nodes-Usable raw v d))
  where
    parsed :
        (workflow ≡ raw)
        × (validate_nodes (nodes raw) ≡ ok tt)
        × (has_duplicates (node_ids (nodes raw)) ≡ false)
    parsed = ground arith
