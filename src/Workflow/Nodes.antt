-- ===== src/Workflow/Nodes.antt =====
-- backend/src/awf/workflow/nodes.py. Ids, types and node references are texts.
use jarvis_awf.Prelude.{
  String, ◌<>◌, Option, none, some, List, [], ◌∷◌, ◌==◌, member, if◌then◌else◌,
}
use jarvis_awf.Json.{Dict, get, contains, as_text}
use jarvis_awf.Exec.{Result, ok, err, plain, node_validation_error}

abbrev pub node_types : List String
node_types =
    "activity" ∷ "agent" ∷ "approval" ∷ "gate" ∷ "subworkflow" ∷ "map" ∷ "loop" ∷ "handoff" ∷ []

-- REQUIRED_FIELDS_BY_TYPE.get(node_type, ())
abbrev pub required_fields : String → List String
required_fields type =
    if type == "activity"
    then "function" ∷ []
    else if type == "subworkflow"
    then "workflowRef" ∷ []
    else if type == "map"
    then "maxItems" ∷ "maxConcurrency" ∷ "workflowRef" ∷ "items" ∷ []
    else if type == "loop"
    then "maxIterations" ∷ "workflowRef" ∷ []
    else if type == "handoff"
    then "initiatingAgent" ∷ "receivingAgent" ∷ "payloadSchema" ∷ "maxHops" ∷ []
    else []

abbrev invalid : String → Result (Unit {0})
invalid text = err (plain node_validation_error text)

-- the loop over the required fields
unfoldable pub require : String → List String → Dict → Result (Unit {0})
require context [] node = ok tt
require context (f ∷ fs) node =
    let rest = require context fs node in
    if contains f node
    then rest
    else invalid (context <> (": missing required field '" <> (f <> "'")))

unfoldable pub validate_typed : String → Option String → Dict → Result (Unit {0})
unfolding require
validate_typed node_id none node =
    invalid ("node '" <> (node_id <> "': missing required field 'type'"))
validate_typed node_id (some type) node =
    if member type node_types
    then require ("node '" <> (node_id <> ("' (type=" <> (type <> ")")))) (required_fields type)
        node
    else invalid ("node '" <> (node_id <> ("': type '" <> (type <> "' is not a node type"))))

unfoldable pub validate_id : Option String → Dict → Result (Unit {0})
unfolding validate_typed
validate_id none node = invalid "node missing required field 'id'"
validate_id (some node_id) node = validate_typed node_id (as_text (get "type" node)) node

unfoldable pub validate_node : Dict → Result (Unit {0})
unfolding validate_id
validate_node node = validate_id (as_text (get "id" node)) node
