-- ===== src/Workflow/Definition.antt =====
-- backend/src/awf/workflow/definition.py. A backoff is a number of seconds with no fraction.
pub mod Parsing
use jarvis_awf.Prelude.{
  ℕ, zero, suc, String, Bool, true, false, not, ◌&&◌, ◌||◌, Option, none, some, List, [], ◌∷◌, ◌==◌,
  member, if◌then◌else◌, map,
}
use jarvis_awf.Prelude.Int.{ℤ, pos, negsuc, pos_part}
use jarvis_awf.Json.{
  Value, null, bool, num, str, arr, obj, Items, nil, cons, Dict, end, get, truthy, as_text,
}
use jarvis_awf.Json.Convert.{int_of, dict_of}
use jarvis_awf.Exec.{Result, ok, err, Exn, plain, workflow_validation_error}
use jarvis_awf.Workflow.Nodes.{validate_node}

-- a node that passed `validate_node`: its id, its type, and all its fields
pub record Node : Type 0 where
  pub id : String
  pub type : String
  pub fields : Dict

-- `node.get(key)`, for a key that holds the id of a node
abbrev pub target : String → Node → Option String
target key node = as_text (get key node.fields)

pub record WorkflowDefinition : Type 0 where
  pub name : String
  pub version : String
  pub input_schema : Dict
  pub output_schema : Dict
  pub budgets : Dict
  pub first : Node
  pub others : List Node
  pub outputs : Dict

-- `nodes`, which the schema wants non-empty
abbrev pub nodes : WorkflowDefinition → List Node
nodes workflow = workflow.first ∷ workflow.others

unfoldable pub find_node : String → List Node → Result Node
find_node node_id [] = err (plain workflow_validation_error "no node with that id")
find_node node_id (n ∷ ns) =
    let rest = find_node node_id ns in if n.id == node_id then ok n else rest

-- WorkflowDefinition.node
unfoldable pub node : WorkflowDefinition → String → Result Node
node workflow node_id = find_node node_id (nodes workflow)

abbrev pub default_retry_classes : List String
default_retry_classes = "TRANSIENT" ∷ "TIMEOUT" ∷ []

pub record NodeRetryPolicy : Type 0 where
  pub max_retries : ℕ
  pub retry_on : List String
  pub backoff_seconds : ℕ
  pub backoff_factor : ℕ
  pub jitter : Bool

-- `x.get(k)`, and where that is None `budgets.get(budget_key, default)`
abbrev setting : String → String → Value → Dict → Dict → Value
setting k budget_key default retry budgets = from_budget (get k retry)
  where
    from_budgets : Option Value → Value
    from_budgets none = default
    from_budgets (some v) = v

    from_budget : Option Value → Value
    from_budget none = from_budgets (get budget_key budgets)
    from_budget (some null) = from_budgets (get budget_key budgets)
    from_budget (some v) = v

-- `int(x)` or `float(x)`, and the default where that raises
abbrev number_or : ℤ → Value → ℤ
number_or default v = elim (int_of v) [ ok z ↦ z | err e ↦ default ]

-- The texts of the list. `str(x)` of another value is the name of no failure class.
texts : Items → List String
texts nil = []
texts (cons (str s) vs) = s ∷ texts vs
texts (cons v vs) = texts vs

retry_classes : Value → List String
unfolding texts
retry_classes (arr vs) = texts vs
retry_classes _ = default_retry_classes

abbrev at_least_one : ℕ → ℕ
at_least_one zero = 1
at_least_one (suc n) = suc n

policy_from : Dict → Dict → NodeRetryPolicy
unfolding retry_classes
policy_from retry budgets = record {
  max_retries =
      pos_part (number_or (pos 0) (setting "max_retries" "maxRetries" (num (pos 0)) retry budgets));
  retry_on = retry_classes (
      setting "retry_on" "retryOn" (arr (cons (str "TRANSIENT") (cons (str "TIMEOUT") nil))) retry
        budgets);
  backoff_seconds =
      pos_part (
        number_or (pos 1) (setting "backoff_seconds" "backoffSeconds" (num (pos 1)) retry budgets));
  backoff_factor = at_least_one (
      pos_part
        (number_or (pos 2) (setting "backoff_factor" "backoffFactor" (num (pos 2)) retry budgets)));
  jitter = truthy (setting "jitter" "jitter" (bool true) retry budgets);
}

-- `node.get("retry") or {}`, a value of which the code asks `.get`
abbrev retry_field : Node → Result Dict
retry_field node = from (get "retry" node.fields)
  where
    from : Option Value → Result Dict
    from none = ok end
    from (some v) = if truthy v then dict_of v else ok end

unfoldable pub resolve_retry_policy : WorkflowDefinition → Node → Result NodeRetryPolicy
unfolding policy_from
resolve_retry_policy workflow node = elim (retry_field node) [
  | err e ↦ err e
  | ok retry ↦ ok (policy_from retry workflow.budgets)
]

-- parse_workflow: the loop that validates the nodes, with the first error as a workflow's
unfoldable pub validate_nodes : List Node → Result (Unit {0})
validate_nodes [] = ok tt
validate_nodes (n ∷ ns) = elim (validate_node n.fields) [
  | ok u ↦ validate_nodes ns
  | err e ↦ err (plain workflow_validation_error e.text)
]

-- `len(node_ids) != len(set(node_ids))`
unfoldable pub has_duplicates : List String → Bool
has_duplicates [] = false
has_duplicates (i ∷ ids) = member i ids || has_duplicates ids

abbrev pub node_ids : List Node → List String
node_ids ns = map (λ n. n.id) ns

-- parse_workflow, after the validation by the JSON schema
unfoldable pub parse_workflow : WorkflowDefinition → Result WorkflowDefinition
unfolding validate_nodes has_duplicates
parse_workflow raw = elim (validate_nodes (nodes raw)) [
  | err e ↦ err e
  | ok u ↦
      if has_duplicates (node_ids (nodes raw))
      then err (plain workflow_validation_error "spec.nodes contains duplicate node ids")
      else ok raw
]
