-- ===== src/Workflow/Mapping.antt =====
-- backend/src/awf/workflow/map_node.py. A child is run, and a branch merged, by a parameter; what the
-- pool of threads gives is one, with a result for each item in the order of the items, or the
-- exception of one of them.
pub mod Merges
use jarvis_awf.Prelude.{
  ℕ, zero, suc, ◌+◌, String, ◌<>◌, Bool, true, false, not, ◌||◌, Option, none, some, List, [], ◌∷◌,
  ◌==◌, ltb, nat_eq, length, if◌then◌else◌,
}
use jarvis_awf.Prelude.Int.{ℤ, pos, negsuc, pos_part, ltb_ℤ}
use jarvis_awf.Json.{
  Value, null, bool, num, str, arr, obj, Items, nil, cons, Dict, end, field, get, text_items,
  as_text,
}
use jarvis_awf.Exec.{
  Exn, Result, ok, err, Exec, plain, classed, type_error, key_error, map_node_error, tool_error,
  invalid_input, integrity_failure, pure, raise, attempt, lift, or_raise, ◌>>=◌, ◌>>◌,
}
use jarvis_awf.Database.{World, M, read_disk, on_disk}
use jarvis_awf.Engine.Executor.{run_step}
use jarvis_awf.Workflow.Definition.{Node}
use jarvis_awf.Workflow.Children.{has_succeeded}

-- the identifier of a child run, and its report
pub record Finished : Type 0 where
  pub child_run_id : String
  pub result : Dict

pub record MapOutside : Type 0 where
  pub run_map_item : String → ℕ → String → Value → M Finished
  pub run_pool : ℕ → String → String → List Value → M (List Finished)
  pub current_head : ℕ → Result String
  -- merge_branch of the branch of a run, which raises where it conflicts
  pub merge_branch : String → Exec ℕ Unit
  pub remove_worktree : String → ℕ → ℕ
  -- `os.name == "nt"`
  pub is_windows : Bool

abbrev values_of : Items → List Value
values_of nil = []
values_of (cons v vs) = v ∷ values_of vs

-- `node[key]` of a list, and of a number
abbrev pub list_field : String → Node → Result (List Value)
list_field key n = elim (get key n.fields) [
  | none ↦ err (plain key_error key)
  | some (arr items) ↦ ok (values_of items)
  | some v ↦ err (plain type_error "object is not a list")
]

abbrev pub number_field : String → Node → Result ℤ
number_field key n = elim (get key n.fields) [
  | none ↦ err (plain key_error key)
  | some (num z) ↦ ok z
  | some (bool true) ↦ ok (pos 1)
  | some (bool false) ↦ ok (pos 0)
  | some v ↦ err (plain type_error "'>' not supported between these types")
]

module _ (out : MapOutside) where
  -- the loop where the concurrency is one
  unfoldable pub run_items : String → String → ℕ → List Value → M (List Finished)
  run_items parent_head workflow_ref index [] = pure []
  run_items parent_head workflow_ref index (item ∷ items) =
      out.run_map_item parent_head index workflow_ref item >>= λ f.
      run_items parent_head workflow_ref (index + 1) items >>= λ fs. pure (f ∷ fs)

  -- behind the `try` of the merge
  unfoldable pub after_merge : String → Result (Unit {0}) → M Unit
  after_merge child (ok u) = pure tt
  after_merge child (err exc) = raise (classed map_node_error integrity_failure exc.text)

  -- one turn of the loop over the results
  unfoldable pub merge_item : Finished → M Unit
  merge_item f =
      if not (has_succeeded f.result)
      then raise (classed map_node_error tool_error "a map item did not succeed")
      else (attempt (on_disk (out.merge_branch f.child_run_id)) >>= after_merge f.child_run_id)

  unfoldable pub merge_items : List Finished → M (List String)
  merge_items [] = pure []
  merge_items (f ∷ fs) = merge_item f >> (merge_items fs >>= λ ids. pure (f.child_run_id ∷ ids))

  abbrev remove_one : Finished → M Unit
  remove_one f w = (ok tt, record w { disk = out.remove_worktree f.child_run_id w.disk })

  -- the `finally`
  unfoldable pub remove_items : List Finished → M Unit
  remove_items [] = pure tt
  remove_items (f ∷ fs) = remove_one f >> remove_items fs

  -- from the `try` on
  unfoldable pub merge_results : List Finished → M (List String)
  merge_results fs = attempt (merge_items fs) >>= λ outcome. remove_items fs >> lift outcome

  abbrev map_output : ℕ → List String → Dict
  map_output count ids =
      field "item_count" (num (pos count)) (field "child_run_ids" (arr (text_items ids)) end)

  -- max(1, node["maxConcurrency"]), which is 1 under Windows
  abbrev pub concurrency : ℤ → ℕ
  concurrency (pos n) = if out.is_windows || ltb n 1 then 1 else n
  concurrency (negsuc n) = 1

  unfoldable pub run_all : String → List Value → ℕ → String → M (List Finished)
  run_all workflow_ref items max_concurrency parent_head =
      if nat_eq max_concurrency 1
      then run_items parent_head workflow_ref 0 items
      else out.run_pool max_concurrency parent_head workflow_ref items

  unfoldable pub map_items : Node → List Value → ℤ → M Dict
  map_items n items max_items =
      if ltb_ℤ max_items (pos (length items))
      then raise (classed map_node_error invalid_input "the items exceed maxItems")
      else (lift (number_field "maxConcurrency" n) >>= λ max_concurrency.
          or_raise (plain key_error "workflowRef") (as_text (get "workflowRef" n.fields))
          >>= λ workflow_ref.
              read_disk out.current_head
              >>= run_all workflow_ref items (concurrency max_concurrency)
              >>= merge_results
              >>= λ ids. pure (map_output (length items) ids))

  -- fn
  unfoldable pub map_fn : Node → Dict → M Dict
  map_fn n payload = lift (list_field "items" n) >>= λ items.
      lift (number_field "maxItems" n) >>= map_items n items

  -- make_map_node_executor
  unfoldable pub map_executor : String → String → Node → M Dict
  map_executor run_id step_id n = run_step step_id run_id (map_fn n) end
