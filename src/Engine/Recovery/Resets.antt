-- ===== src/Engine/Recovery/Resets.antt =====
-- When the reset of an interrupted run cannot succeed.
use jarvis_awf.Prelude.{
  String, ◌≡◌, ◌⊎◌, inl, inr, refl, sym, ap, ◌∙◌, Bool, true, false, ◌&&◌, some, List, [], ◌∷◌,
  arith, ◌==◌, eq_iff, eq_refl, any, member, if◌then◌else◌, Bool-cases,
}
use jarvis_awf.Prelude.Table
use jarvis_awf.Prelude.Table.{get-delete, exists_of_get, exists-rows, on_pair}
use jarvis_awf.Exec.{Exn, plain, integrity_error, Result, ok, err, ◌>>◌}
use jarvis_awf.Exec.Inversion.{>>=-raised, >>=-step, >>=-err}
use jarvis_awf.Database.{World, Step, is_succeeded}
use jarvis_awf.Engine.Recovery.{
  is_referenced, delete_steps, node_ids, of_node, is_in_flight, reset_node, reset_nodes,
  reset_interrupted_node_steps,
}

abbrev pub refused : Exn
refused = plain integrity_error "FOREIGN KEY constraint failed"

abbrev row_of : String → (Step → Bool) → String → String → Step → Bool
row_of run_id p n k s = of_node run_id n k s && p s

-- the nodes that are listed are those of the rows
member-node_ids :
    (p : Step → Bool) (run_id n : String) (l : List (String × Step))
    → member n (node_ids p run_id l) ≡ any (on_pair (row_of run_id p n)) l
unfolding node_ids
member-node_ids p run_id n [] = refl
member-node_ids p run_id n ((k, s) ∷ l) = ground (arith, member-node_ids p run_id n l)

module _ (k : String) (row : Step) (run_id : String) where
  -- the row is there, and a foreign key names it
  record Held (w : World) : Type 0 where
    there : Table.get k w.steps ≡ some row
    named : is_referenced w k ≡ true

  delete_steps-refused :
      (p : String → Step → Bool) (w : World)
      → Held w
      → p k row ≡ true
      → delete_steps p w ≡ (err refused, w)
  unfolding delete_steps
  delete_steps-refused p w h y =
      rw
        (exists_of_get (λ j s. p j s && is_referenced w j) k row w.steps h.there
          (rw (y, h.named) refl))
        refl

  abbrev Outcome : Result (Unit {0}) × World → World → Type 0
  Outcome r w = (r ≡ (err refused, w)) ⊎ ((v : World) × (r ≡ (ok tt, v)) × Held v)

  without : (String → Step → Bool) → World → World
  without p w = record w { steps = Table.delete p w.steps }

  choice-Outcome :
      (b : Bool) (w v : World) → Held v → Outcome (if b then (err refused, w) else (ok tt, v)) w
  choice-Outcome true w v h = inl refl
  choice-Outcome false w v h = inr (v, refl, h)

  without-Held :
      (p : String → Step → Bool) (w : World) → Held w → p k row ≡ false → Held (without p w)
  unfolding is_referenced without
  without-Held p w h n = record { there = get-delete p k row w.steps h.there n; named = h.named }

  delete_steps-Outcome :
      (p : String → Step → Bool) (w : World)
      → Held w
      → p k row ≡ false
      → Outcome (delete_steps p w) w
  unfolding delete_steps without
  delete_steps-Outcome p w h n =
      choice-Outcome (Table.exists (λ j s. p j s && is_referenced w j) w.steps) w (without p w)
        (without-Held p w h n)

  reset_node-refused :
      (succeeded : List String) (w : World)
      → row.run_id ≡ run_id
      → member row.node_id succeeded ≡ false
      → Held w
      → reset_node run_id succeeded row.node_id w ≡ (err refused, w)
  unfolding reset_node
  reset_node-refused succeeded w r s h =
      rw s (delete_steps-refused (of_node run_id row.node_id) w h (rw (r, eq_refl, eq_refl) refl))

  reset_node-Outcome :
      (succeeded : List String) (n : String) (w : World)
      → (n == row.node_id) ≡ false
      → Held w
      → Outcome (reset_node run_id succeeded n w) w
  unfolding reset_node
  reset_node-Outcome succeeded n w e h = elim (Bool-cases (member n succeeded)) [
    | inl y ↦ inr (w, rw y refl, h)
    | inr y ↦ rw y (
        delete_steps-Outcome (of_node run_id n) w h
          (ground (arith, eq_iff n row.node_id, eq_iff row.node_id n)))
  ]

  -- The loop over the nodes stops at a step that a foreign key names.
  reset_nodes-refused :
      (succeeded ns : List String) (w : World)
      → row.run_id ≡ run_id
      → member row.node_id succeeded ≡ false
      → member row.node_id ns ≡ true
      → Held w
      → (reset_nodes run_id succeeded ns w).0 ≡ err refused
  unfolding reset_nodes
  reset_nodes-refused succeeded [] w r s m h = absurd (cc m)
  reset_nodes-refused succeeded (n ∷ ns) w r s m h = elim (Bool-cases (n == row.node_id)) [
    | inl e ↦
        let same : n ≡ row.node_id = (eq_iff n row.node_id).0 e in
        rw same (
          ap (λ x. x.0)
            (>>=-raised (reset_node run_id succeeded row.node_id)
              (λ _. reset_nodes run_id succeeded ns) w (reset_node-refused succeeded w r s h)))
    | inr e ↦
        after (λ v. reset_nodes-refused succeeded ns v r s (ground arith))
          (reset_node-Outcome succeeded n w e h)
  ]
    where
      after :
          ((v : World) → Held v → (reset_nodes run_id succeeded ns v).0 ≡ err refused)
          → Outcome (reset_node run_id succeeded n w) w
          → ((reset_node run_id succeeded n >> reset_nodes run_id succeeded ns) w).0 ≡ err refused
      after rest (inl y) =
          ap (λ x. x.0)
            (>>=-raised (reset_node run_id succeeded n) (λ _. reset_nodes run_id succeeded ns) w y)
      after rest (inr (v, y, g)) =
          ap (λ x. x.0)
            (>>=-step (reset_node run_id succeeded n) (λ _. reset_nodes run_id succeeded ns) w y)
          ∙ rest v g

  abbrev done : Step → Bool
  done s = is_succeeded s.status

  -- the node of a row of the run is listed
  pub listed-node :
      (p : Step → Bool) (w : World)
      → Table.get k w.steps ≡ some row
      → row.run_id == run_id ≡ true
      → p row ≡ true
      → member row.node_id (node_ids p run_id (Table.rows w.steps)) ≡ true
  listed-node p w h r y =
      rw (member-node_ids, sym (exists-rows (row_of run_id p row.node_id) w.steps))
        (exists_of_get (row_of run_id p row.node_id) k row w.steps h (rw (r, eq_refl, y) refl))

  -- A run cannot be reset while a step of it is named by an event, an approval or an artifact and
  -- no step of the same node is SUCCEEDED: the DELETE raises.
  pub reset-refused :
      (w : World)
      → row.run_id ≡ run_id
      → Table.get k w.steps ≡ some row
      → is_referenced w k ≡ true
      → Table.exists (row_of run_id done row.node_id) w.steps ≡ false
      → (reset_interrupted_node_steps run_id w).0 ≡ err refused
  unfolding reset_interrupted_node_steps
  reset-refused w r h n s =
      >>=-err (λ _. delete_steps (λ _ s. s.run_id == run_id && is_in_flight s.status))
        (reset_nodes run_id (node_ids done run_id (Table.rows w.steps))
          (node_ids (λ _. true) run_id (Table.rows w.steps)))
        w
        (reset_nodes-refused (node_ids done run_id (Table.rows w.steps))
          (node_ids (λ _. true) run_id (Table.rows w.steps)) w r
          (rw (member-node_ids, sym (exists-rows (row_of run_id done row.node_id) w.steps)) s)
          (listed-node (λ _. true) w h (rw (r, eq_refl) refl) refl)
          (record { there = h; named = n }))
