-- ===== src/Engine/Recovery/Spared.antt =====
-- What the reset of an interrupted run keeps.
use jarvis_awf.Prelude.{
  String, ◌≡◌, ◌≢◌, ◌⊎◌, inl, inr, sym, Bool, true, false, ◌&&◌, some, List, [], ◌∷◌, arith, ◌==◌,
  eq_iff, member, Bool-cases,
}
use jarvis_awf.Prelude.Table
use jarvis_awf.Prelude.Table.{get-delete, exists_of_get, exists-rows, on_pair}
use jarvis_awf.Exec.Inversion.{Preserves, >>=-Preserves}
use jarvis_awf.Database.{World, Step, is_succeeded}
use jarvis_awf.Engine.Recovery.{
  delete_steps, node_ids, of_node, is_in_flight, reset_node, reset_nodes,
  reset_interrupted_node_steps,
}
use jarvis_awf.Engine.Recovery.Resets.{listed-node}

module _ (k : String) (row : Step) (run_id : String) where
  -- A row that the condition excludes stays, whatever the statement does.
  delete_steps-get :
      (p : String → Step → Bool) (w : World)
      → Table.get k w.steps ≡ some row
      → p k row ≡ false
      → Table.get k (delete_steps p w).1.steps ≡ some row
  unfolding delete_steps
  delete_steps-get p w h n = ground (arith, get-delete p k row w.steps h n)

  abbrev done : Step → Bool
  done s = is_succeeded s.status

  abbrev Stays : World → Type 0
  Stays w = Table.get k w.steps ≡ some row

  reset_node-Stays :
      (succeeded : List String) (n : String)
      → (of_node run_id n k row ≡ true → member n succeeded ≡ true)
      → Preserves Stays (reset_node run_id succeeded n)
  unfolding reset_node
  reset_node-Stays succeeded n c w h = elim (Bool-cases (member n succeeded)) [
    | inl y ↦ rw y h
    | inr y ↦ rw y (delete_steps-get (of_node run_id n) w h (ground arith))
  ]

  reset_nodes-Stays :
      (succeeded ns : List String)
      → ((n : String) → of_node run_id n k row ≡ true → member n succeeded ≡ true)
      → Preserves Stays (reset_nodes run_id succeeded ns)
  unfolding reset_nodes
  reset_nodes-Stays succeeded [] c = λ w h. h
  reset_nodes-Stays succeeded (n ∷ ns) c =
      >>=-Preserves Stays (reset_node run_id succeeded n) (λ _. reset_nodes run_id succeeded ns)
        (reset_node-Stays succeeded n (c n)) (λ _. reset_nodes-Stays succeeded ns c)

  abbrev IsSpared : Type 0
  IsSpared = (is_succeeded row.status ≡ true) ⊎ ((row.run_id == run_id) ≡ false)

  listed-spared :
      (w : World)
      → Table.get k w.steps ≡ some row
      → IsSpared
      → (n : String) → of_node run_id n k row ≡ true
      → member n (node_ids done run_id (Table.rows w.steps)) ≡ true
  listed-spared w h c n y =
      let mine : row.run_id == run_id ≡ true = ground arith in
      let same : row.node_id ≡ n = (eq_iff row.node_id n).0 (ground arith) in
      rw (sym same) (listed-node k row run_id done w h mine (ground arith))

  in_flight-spared : IsSpared → (row.run_id == run_id && is_in_flight row.status) ≡ false
  in_flight-spared c = ground arith

  -- The reset keeps every step that is SUCCEEDED and every step of another run, whether it returns
  -- or raises.
  pub reset-keeps :
      (w : World)
      → Table.get k w.steps ≡ some row
      → (is_succeeded row.status ≡ true) ⊎ (row.run_id ≢ run_id)
      → Table.get k (reset_interrupted_node_steps run_id w).1.steps ≡ some row
  unfolding reset_interrupted_node_steps
  reset-keeps w h other =
      let c : IsSpared = ground (arith, eq_iff row.run_id run_id) in
      let succeeded = node_ids done run_id (Table.rows w.steps) in
      >>=-Preserves Stays
        (reset_nodes run_id succeeded (node_ids (λ _. true) run_id (Table.rows w.steps)))
        (λ _. delete_steps (λ _ s. s.run_id == run_id && is_in_flight s.status))
        (reset_nodes-Stays succeeded (node_ids (λ _. true) run_id (Table.rows w.steps))
          (listed-spared w h c))
        (λ _ v g.
          delete_steps-get (λ _ s. s.run_id == run_id && is_in_flight s.status) v g
            (in_flight-spared c))
        w h
