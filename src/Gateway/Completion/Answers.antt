-- ===== src/Gateway/Completion/Answers.antt =====
-- What a structured completion answers.
use jarvis_awf.Prelude.{String, ◌≡◌, Bool, true, false, not, List, [], ◌∷◌, arith, if◌then◌else◌}
use jarvis_awf.Json.{Value, Dict, put}
use jarvis_awf.Exec.{Result, ok, err, raise, lift, attempt, ◌>>=◌}
use jarvis_awf.Exec.Inversion.{>>=-Returned}
use jarvis_awf.Database.{World, M}
use jarvis_awf.Registry.Profile.{Candidate, ModelProfile, enabled_candidates_by_priority}
use jarvis_awf.Gateway.{Services, Caller, is_ordered}
use jarvis_awf.Gateway.Completion.{
  prepare, after_try, try_candidates, try_enabled, checked_payload, read_content, ask_structured,
  complete_structured,
}
use jarvis_awf.Gateway.Completion.Calls.{lift-returned}

module _ (out : Services) (p : ModelProfile) (caller : Caller) (generation : Dict) where
  -- what holds of every answer holds of what the loop returns
  try_candidates-Holds :
      (P : Value → Type 0) (ask : Dict → M Value)
      → ((kwargs : Dict) (w : World) (x : Value) → (ask kwargs w).0 ≡ ok x → P x)
      → (cs : List Candidate) (w : World) {x : Value}
      → (try_candidates out p caller generation ask cs w).0 ≡ ok x
      → P x
  unfolding try_candidates after_try
  try_candidates-Holds P ask holds [] w h = absurd (cc h)
  try_candidates-Holds P ask holds (c ∷ cs) w h =
      let a = >>=-Returned (prepare out p caller generation c) tried w h in
      let v = (prepare out p caller generation c w).1 in
      settled (ask a.value v).0 (ask a.value v).1 (holds a.value v)
        (λ u x k. try_candidates-Holds P ask holds cs u {x = x} k) a.second
    where
      tried : Dict → M Value
      tried kwargs =
          attempt (ask kwargs)
          >>= after_try out p caller generation (try_candidates out p caller generation ask cs)

      Again : Type 0
      Again =
          (u : World) (x : Value) → (try_candidates out p caller generation ask cs u).0 ≡ ok x → P x

      settled :
          (r : Result Value) (v : World)
          → ((x : Value) → r ≡ ok x → P x)
          → Again
          → {x : Value}
          → (after_try out p caller generation
              (try_candidates out p caller generation ask cs)
              r
              v).0
            ≡ ok x
          → P x
      settled (ok content) v good again {x} k = good x k
      settled (err e) v good again k = fallen (not (is_ordered p.fallback.mode)) again k
        where
          fallen :
              (b : Bool)
              → Again
              → {x : Value}
              → ((if b then raise e else try_candidates out p caller generation ask cs) v).0 ≡ ok x
              → P x
          fallen true again k = absurd (cc k)
          fallen false again {x} k = again v x k

  try_enabled-Holds :
      (P : Value → Type 0) (ask : Dict → M Value)
      → ((kwargs : Dict) (w : World) (x : Value) → (ask kwargs w).0 ≡ ok x → P x)
      → (cs : List Candidate) (w : World) {x : Value}
      → (try_enabled out p caller generation ask cs w).0 ≡ ok x
      → P x
  try_enabled-Holds P ask holds [] w h = absurd (cc h)
  try_enabled-Holds P ask holds (c ∷ cs) w h = try_candidates-Holds P ask holds (c ∷ cs) w h

  read_content-conforms :
      (completion : Dict → M Value) (schema : Dict) (content : Value) {x : Value}
      → read_content out p caller generation completion schema content ≡ ok x
      → out.conforms x schema ≡ true
  unfolding read_content checked_payload
  read_content-conforms completion schema content h = ground arith

  -- What a structured completion returns conforms to the schema that was asked for.
  pub complete_structured-conforms :
      (completion : Dict → M Value) (messages : Value) (schema_name : String) (schema : Dict)
      (w : World) {payload : Value}
      → (complete_structured out p caller generation completion messages schema_name schema w).0
        ≡ ok payload
      → out.conforms payload schema ≡ true
  unfolding complete_structured ask_structured
  complete_structured-conforms completion messages schema_name schema w h =
      try_enabled-Holds (λ x. out.conforms x schema ≡ true)
        (ask_structured out p caller generation completion messages schema_name schema)
        (λ kwargs v x k.
          let a =
            >>=-Returned (completion (put "response_format" _ (put "messages" messages kwargs)))
              (λ content. lift (read_content out p caller generation completion schema content)) v
              k in
          read_content-conforms completion schema a.value (
            lift-returned (read_content out p caller generation completion schema a.value) _
              a.second))
        (enabled_candidates_by_priority p) w h
