-- ===== src/Voice/Session/Frames.antt =====
-- What an accepted frame leaves in the database.
use jarvis_awf.Prelude.{
  String, ◌≡◌, refl, sym, ◌∙◌, Bool, true, false, Option, none, some, [], ◌∷◌, ◌++◌, ap,
  if◌then◌else◌,
}
use jarvis_awf.Json
use jarvis_awf.Json.{Value, str, Dict, get-merge_absent, field, end}
use jarvis_awf.Exec.{ok, ◌>>=◌, ◌>>◌, pure, raise, or_raise, plain, voice_session_error}
use jarvis_awf.Exec.Inversion.{>>=-Returned}
use jarvis_awf.Database.{World, M, Entry, Session}
use jarvis_awf.Memory.Sessions.{append_entry}
use jarvis_awf.Memory.Sessions.Append.{added, append_entry-entries}
use jarvis_awf.Voice.Session.States.{VoiceState, IsKnown}
use jarvis_awf.Voice.Session.{
  VoiceFrame, VoiceSession, newer, latest_state, current_voice_session, record_transition,
  interruption_content, note_interruption, is_interruption, is_closed, as_session, next_state,
  advance, accept_frame,
}
use jarvis_awf.Voice.Session.Entries.{
  latest_state-append, next_state-IsKnown, latest-entry, entry_state-StateEntry,
  entry_state-interruption, record_transition-StateEntry,
}

-- The frame does not set "kind" itself, which matters where it is an interruption.
abbrev pub KeepsKind : VoiceFrame → Type 0
KeepsKind frame = Json.get "kind" frame.payload ≡ none

abbrev latest : VoiceSession → World → Option VoiceState
latest vs w = latest_state vs.memory_session_id w.entries

module _ (vs : VoiceSession) (frame : VoiceFrame) (keeps : KeepsKind frame) where
  abbrev noted : World → Entry
  noted =
      added vs.memory_session_id "system" (interruption_content frame) (some "voice interruption")

  latest-noted : (v u : World) → u.entries ≡ v.entries ++ noted v ∷ [] → latest vs u ≡ latest vs v
  latest-noted v u e = cc (
    ap (latest_state vs.memory_session_id) e,
    latest_state-append vs.memory_session_id v.entries (noted v),
    entry_state-interruption vs.memory_session_id frame (noted v) refl keeps,
    newer_none (latest vs v),
  )
    where
      newer_none : (o : Option VoiceState) → newer none o ≡ o
      newer_none o = refl

  abbrev writes_note : M Session
  writes_note =
      append_entry vs.memory_session_id "system" (interruption_content frame)
        (some "voice interruption")

  choice-latest :
      (b : Bool) (v : World) {r : VoiceSession}
      → ((if b then (writes_note >> pure vs) else pure vs) v).0 ≡ ok r
      → (latest vs ((if b then (writes_note >> pure vs) else pure vs) v).1 ≡ latest vs v) × (r ≡ vs)
  choice-latest true v h =
      let a = >>=-Returned writes_note (λ _. pure vs) v h in
      (
        ap (latest vs) a.state
            ∙ latest-noted v (writes_note v).1 (
                append_entry-entries vs.memory_session_id "system" (interruption_content frame)
                  (some "voice interruption") v a.first),
        cc a.second,
      )
  choice-latest false v h = (refl, cc)

  note_interruption-latest :
      (v : World) {r : VoiceSession}
      → (note_interruption vs frame v).0 ≡ ok r
      → (latest vs (note_interruption vs frame v).1 ≡ latest vs v) × (r ≡ vs)
  unfolding note_interruption
  note_interruption-latest v h = choice-latest (is_interruption frame.frame_type) v h

module _ (vs : VoiceSession) (frame : VoiceFrame) (keeps : KeepsKind frame) (w : World) where
  advance-latest :
      (o : Option VoiceState) {r : VoiceSession}
      → ((s : VoiceState) → o ≡ some s → IsKnown s)
      → (advance vs frame o w).0 ≡ ok r
      → (latest vs (advance vs frame o w).1 ≡ some r.state)
        × (some r.state ≡ o)
        × (r ≡ record vs { state = r.state })
  unfolding advance
  advance-latest none known h = cc
  advance-latest (some state) {r} known h =
      let next : VoiceSession = record vs { state = state } in
      let a =
        >>=-Returned (record_transition next (some vs.state) frame)
          (λ _. note_interruption next frame) w h in
      let s = record_transition-StateEntry next (some vs.state) frame w a.first in
      let n =
        note_interruption-latest next frame keeps (record_transition next (some vs.state) frame w).1
          a.second in
      let e = entry_state-StateEntry {vs = next} s (known state refl) in
      let l = latest-entry next s.entry w.entries e in
      let rs : r.state ≡ state = ap (λ (x : VoiceSession). x.state) n.1 in
      let back : some state ≡ some r.state = ap some (sym rs) in
      (
        ap (latest vs) a.state ∙ n.0 ∙ ap (latest_state vs.memory_session_id) s.entries ∙ l ∙ back,
        sym back,
        n.1 ∙ ap (λ (x : VoiceState). record vs { state = x }) (sym rs),
      )

current_of_latest :
    (k : String) (w : World) (s : VoiceState)
    → latest_state k w.entries ≡ some s
    → (current_voice_session k w).0
      ≡ ok (record { voice_session_id = k; memory_session_id = k; state = s })
unfolding current_voice_session
current_of_latest k w s h = rw h refl

module _ (k : String) (frame : VoiceFrame) (keeps : KeepsKind frame) (w : World) where
  abbrev at_state : VoiceState → VoiceSession
  at_state s = record { voice_session_id = k; memory_session_id = k; state = s }

  abbrev dispatch : Bool → VoiceState → M VoiceSession
  dispatch b s =
      if b
      then raise (plain voice_session_error "voice session is closed")
      else advance (at_state s) frame (next_state s frame.frame_type)

  -- the transition that an accepted frame made, and the read that finds it
  abbrev Accepted : VoiceState → World → VoiceSession → Type 0
  Accepted s v r =
      ((current_voice_session k v).0 ≡ ok r) × (next_state s frame.frame_type ≡ some r.state)

  dispatch-Accepted :
      (b : Bool) (s : VoiceState) {r : VoiceSession}
      → (dispatch b s w).0 ≡ ok r
      → Accepted s (dispatch b s w).1 r
  dispatch-Accepted true s h = absurd (cc h)
  dispatch-Accepted false s {r} h =
      let o = next_state s frame.frame_type in
      let a =
        advance-latest (at_state s) frame keeps w o (λ t e. next_state-IsKnown s frame.frame_type e)
          h in
      let c = current_of_latest k (dispatch false s w).1 r.state a.0 in
      (c ∙ ap ok (sym a.2), sym a.1)

  abbrev step : VoiceSession → M VoiceSession
  step vs =
      if is_closed vs.state
      then raise (plain voice_session_error "voice session is closed")
      else advance vs frame (next_state vs.state frame.frame_type)

  accept-Accepted :
      (o : Option VoiceState) {r : VoiceSession}
      → ((or_raise (plain voice_session_error "voice session has no state entry") (as_session k o)
            >>= step)
          w).0
        ≡ ok r
      → (s : VoiceState) × (o ≡ some s)
        × Accepted s
            ((or_raise
                  (plain voice_session_error "voice session has no state entry")
                  (as_session k o)
                >>= step)
              w).1
            r
  accept-Accepted none h = absurd (cc h)
  accept-Accepted (some s) h = (s, refl, dispatch-Accepted (is_closed s) s h)

  -- Where the payload of the frame has no key `kind`: what an accepted frame returns is what the next read of the session finds, on every transition
  -- and with an interruption's extra entry after it too; and the state that it returns is the one
  -- that the transition table, or a closing frame, gives for the state before.
  pub accept_frame-current :
      {r : VoiceSession}
      → (accept_frame k frame w).0 ≡ ok r
      → (s : VoiceState) × (latest_state k w.entries ≡ some s)
        × ((current_voice_session k (accept_frame k frame w).1).0 ≡ ok r)
        × (next_state s frame.frame_type ≡ some r.state)
  unfolding accept_frame current_voice_session
  accept_frame-current h =
      let (s, e, a) = accept-Accepted (latest_state k w.entries) h in (s, e, a.0, a.1)
