-- ===== src/Gateway/Completion/Calls.antt =====
-- Which models the gateway asks.
use jarvis_awf.Prelude.{
  String, ◌≡◌, ◌⊎◌, inl, inr, refl, ap, ◌∙◌, Bool, true, false, not, Option, none, List, [], ◌∷◌,
  arith, if◌then◌else◌,
}
use jarvis_awf.Json.{Value, Dict}
use jarvis_awf.Exec.{Result, ok, err, raise, lift, attempt, ◌>>=◌}
use jarvis_awf.Exec.Inversion.{>>=-Returned, >>=-cong, ok-injective}
use jarvis_awf.Database.{World, M}
use jarvis_awf.Registry.Capability.{CapabilityRecord}
use jarvis_awf.Registry.Profile.{Candidate, ModelProfile, enabled_candidates_by_priority}
use jarvis_awf.Guard.{
  Decision, allow, deny, approval_required, evaluate, authorize, record_decision,
}
use jarvis_awf.Gateway.{
  Services, Caller, given, text_or_empty, allowlist_of, is_ordered, is_local_candidate,
  capability_name, only_local, must_allow, guarded, request_of, authorize_completion_call,
  resolve_api_key, candidate_kwargs,
}
use jarvis_awf.Gateway.Completion.{
  prepare, after_try, try_candidates, try_enabled, ask_text, complete,
}

-- A candidate that may be asked: a local one, or one that the guard allows.
abbrev pub MayAsk : Services → Caller → Candidate → Type 0
MayAsk out caller c =
    (is_local_candidate out c ≡ true)
    ⊎ ((capability : CapabilityRecord) × (reason : String) × (out.load_capability
            (capability_name out c)
          ≡ ok capability)
        × (evaluate capability (allowlist_of caller.agent_allowlist) none ≡ ok (allow, reason)))

pub lift-returned :
    {A : Type 0} (r : Result A) (w : World) {a : A} → (lift {S = World} r w).0 ≡ ok a → r ≡ ok a
lift-returned (ok x) w h = h
lift-returned (err e) w h = absurd (cc h)

module _ (out : Services) (caller : Caller) (c : Candidate) where
  only_local-MayAsk :
      (w : World) {u : Unit {0}} → (only_local out c w).0 ≡ ok u → MayAsk out caller c
  unfolding only_local
  only_local-MayAsk w h = inl (ground arith)

  must_allow-is :
      (d : Decision) (w : World) {u : Unit {0}} → (must_allow out d w).0 ≡ ok u → d ≡ allow
  unfolding must_allow
  must_allow-is allow w h = refl
  must_allow-is deny w h = absurd (cc h)
  must_allow-is approval_required w h = absurd (cc h)

  guarded-MayAsk :
      (run_id : String) (w : World) {u : Unit {0}}
      → (guarded out caller c run_id w).0 ≡ ok u
      → MayAsk out caller c
  unfolding guarded authorize
  guarded-MayAsk run_id w h =
      let a =
        >>=-Returned (lift (out.load_capability (capability_name out c)))
          (λ capability. authorize capability (request_of out caller c run_id) >>= must_allow out) w
          h in
      let capability = a.value in
      let w1 = (lift {S = World} (out.load_capability (capability_name out c)) w).1 in
      let b =
        >>=-Returned (authorize capability (request_of out caller c run_id)) (must_allow out) w1
          a.second in
      let d =
        >>=-Returned (lift (evaluate capability (allowlist_of caller.agent_allowlist) none))
          (record_decision capability (request_of out caller c run_id)) w1 b.first in
      let allowed : d.value.0 ≡ allow = ok-injective d.second ∙ must_allow-is b.value _ b.second in
      inr (
        capability,
        d.value.1,
        lift-returned (out.load_capability (capability_name out c)) w a.first,
        lift-returned (evaluate capability (allowlist_of caller.agent_allowlist) none) w1 d.first
            ∙ ap (λ x. ok (x, d.value.1)) allowed,
      )

  authorize_completion_call-MayAsk :
      (w : World) {u : Unit {0}}
      → (authorize_completion_call out caller c w).0 ≡ ok u
      → MayAsk out caller c
  unfolding authorize_completion_call
  authorize_completion_call-MayAsk w h =
      with_conn (not caller.has_conn) (not (given caller.run_id)) h
    where
      with_conn :
          (a b : Bool) {u : Unit {0}}
          → ((if a
                then only_local out c
                else if b
                then only_local out c
                else guarded out caller c (text_or_empty caller.run_id))
              w).0
            ≡ ok u
          → MayAsk out caller c
      with_conn true b k = only_local-MayAsk w k
      with_conn false true k = only_local-MayAsk w k
      with_conn false false k = guarded-MayAsk (text_or_empty caller.run_id) w k

abbrev pub Among : List Candidate → Candidate → Type 0
Among [] c = ⊥
Among (d ∷ ds) c = (d ≡ c) ⊎ Among ds c

-- Two ways to ask the models that differ at most on what may not be asked.
abbrev pub Agree :
    Services
    → ModelProfile
    → Caller
    → Dict
    → List Candidate
    → (ask answer : Dict → M Value) → Type 0
Agree out p caller generation cs ask answer =
    (c : Candidate) (key : Option String) (kwargs : Dict)
    → Among cs c
    → MayAsk out caller c
    → candidate_kwargs out p c key generation ≡ ok kwargs
    → (w : World) → ask kwargs w ≡ answer kwargs w

module _ (out : Services) (p : ModelProfile) (caller : Caller) (generation : Dict) where
  -- the arguments that were prepared for a candidate
  record Prepared (c : Candidate) (kwargs : Dict) : Type 0 where
    key : Option String
    allowed : MayAsk out caller c
    arguments : candidate_kwargs out p c key generation ≡ ok kwargs

  prepare-Prepared :
      (c : Candidate) (w : World) {kwargs : Dict}
      → (prepare out p caller generation c w).0 ≡ ok kwargs
      → Prepared c kwargs
  unfolding prepare
  prepare-Prepared c w h =
      let a =
        >>=-Returned (authorize_completion_call out caller c)
          (λ _.
            resolve_api_key out caller c >>= λ key. lift (candidate_kwargs out p c key generation))
          w h in
      let b =
        >>=-Returned (resolve_api_key out caller c)
          (λ key. lift (candidate_kwargs out p c key generation)) _ a.second in
      record {
        key = b.value;
        allowed = authorize_completion_call-MayAsk out caller c w a.first;
        arguments = lift-returned (candidate_kwargs out p c b.value generation) _ b.second;
      }

  module _ (ask answer : Dict → M Value) where
    after_try-same :
        (rest more : M Value)
        → ((w : World) → rest w ≡ more w)
        → (r : Result Value) (w : World)
        → after_try out p caller generation rest r w ≡ after_try out p caller generation more r w
    unfolding after_try
    after_try-same rest more h (ok content) w = refl
    after_try-same rest more h (err e) w = chosen (not (is_ordered p.fallback.mode))
      where
        chosen : (b : Bool) → (if b then raise e else rest) w ≡ (if b then raise e else more) w
        chosen true = refl
        chosen false = h w

    try_candidates-same :
        (cs : List Candidate) (w : World)
        → Agree out p caller generation cs ask answer
        → try_candidates out p caller generation ask cs w
          ≡ try_candidates out p caller generation answer cs w
    unfolding try_candidates
    try_candidates-same [] w same = refl
    try_candidates-same (c ∷ cs) w same =
        >>=-cong (tried ask) (tried answer) (prepare out p caller generation c) w (λ kwargs h.
          asked kwargs (prepare-Prepared c w h) _
            (λ v. try_candidates-same cs v (λ d key kw m. same d key kw (inr m))))
      where
        tried : (Dict → M Value) → Dict → M Value
        tried f kwargs =
            attempt (f kwargs)
            >>= after_try out p caller generation (try_candidates out p caller generation f cs)

        after : (Dict → M Value) → Result Value × World → Result Value × World
        after f x =
            after_try out p caller generation (try_candidates out p caller generation f cs) x.0 x.1

        asked :
            (kwargs : Dict)
            → Prepared c kwargs
            → (v : World)
            → ((u : World)
                → try_candidates out p caller generation ask cs u
                  ≡ try_candidates out p caller generation answer cs u)
            → tried ask kwargs v ≡ tried answer kwargs v
        asked kwargs d v rest =
            ap (after ask) (same c d.key kwargs (inl refl) d.allowed d.arguments v)
            ∙ after_try-same (try_candidates out p caller generation ask cs)
                (try_candidates out p caller generation answer cs) rest (answer kwargs v).0
                (answer kwargs v).1

    try_enabled-same :
        (cs : List Candidate) (w : World)
        → Agree out p caller generation cs ask answer
        → try_enabled out p caller generation ask cs w
          ≡ try_enabled out p caller generation answer cs w
    try_enabled-same [] w same = refl
    try_enabled-same (c ∷ cs) w same = try_candidates-same (c ∷ cs) w same

  -- The gateway asks no model that it may not ask: two ways to ask the models that agree on those
  -- enabled candidates of the profile that are local or that the guard allows give the same result,
  -- and leave the same rows, whatever else they would have answered.
  pub complete-MayAsk :
      (completion other : Dict → M Value) (messages : Value)
      → Agree out p caller generation
          (enabled_candidates_by_priority p)
          (ask_text out p caller generation completion messages)
          (ask_text out p caller generation other messages)
      → (w : World)
      → complete out p caller generation completion messages w
        ≡ complete out p caller generation other messages w
  unfolding complete
  complete-MayAsk completion other messages same w =
      try_enabled-same (ask_text out p caller generation completion messages)
        (ask_text out p caller generation other messages) (enabled_candidates_by_priority p) w same
