-- ===== src/Voice/Session/Entries.antt =====
-- What the entries of a session say of its state.
use jarvis_awf.Prelude.{
  String, ◌≡◌, refl, ◌∙◌, Option, none, some, List, [], ◌∷◌, ◌++◌, arith, ap, eq_refl,
}
use jarvis_awf.Json
use jarvis_awf.Json.{Value, str, Dict, get-merge_absent, field, end}
use jarvis_awf.Exec.{ok, ◌>>◌}
use jarvis_awf.Exec.Inversion.{>>=-Returned}
use jarvis_awf.Database.{World, M, Entry, Session, EventArgs, write_event}
use jarvis_awf.Memory.Sessions.{append_entry}
use jarvis_awf.Memory.Sessions.Append.{added, append_entry-entries}
use jarvis_awf.Voice.Session.States.{
  VoiceState, idle, closed, unknown, IsKnown, state_of_name-state_name, FrameType, session_closed,
  transition, armed, listening, transcribing, submitting, speaking, recovering,
}
use jarvis_awf.Voice.Session.{
  VoiceFrame, VoiceSession, entry_state, newer, latest_state, record_transition, state_content,
  interruption_content, interruption_base, next_state, ensure_system_run, transition_summary,
  transition_event,
}

pub latest_state-append :
    (k : String) (es : List Entry) (e : Entry)
    → latest_state k (es ++ e ∷ []) ≡ newer (entry_state k e) (latest_state k es)
unfolding latest_state
latest_state-append k [] e = ground arith
latest_state-append k (x ∷ es) e = ground (arith, latest_state-append k es e)

abbrev KnownOption : Option VoiceState → Type 0
KnownOption none = Unit
KnownOption (some s) = IsKnown s

-- a frame leads to one of the named states
next_state-KnownOption : (s : VoiceState) (f : FrameType) → KnownOption (next_state s f)
unfolding transition
next_state-KnownOption idle session_closed = tt
next_state-KnownOption armed session_closed = tt
next_state-KnownOption listening session_closed = tt
next_state-KnownOption transcribing session_closed = tt
next_state-KnownOption submitting session_closed = tt
next_state-KnownOption speaking session_closed = tt
next_state-KnownOption recovering session_closed = tt
next_state-KnownOption closed session_closed = tt
next_state-KnownOption (unknown x) session_closed = tt
next_state-KnownOption _ _ = tt

pub next_state-IsKnown :
    (s : VoiceState) (f : FrameType) {t : VoiceState} → next_state s f ≡ some t → IsKnown t
next_state-IsKnown s f h = rw h at (next_state-KnownOption s f)

-- what a state entry of this session says
pub record StateEntry (vs : VoiceSession) (prior : Option VoiceState) (frame : VoiceFrame)
    (w v : World) : Type 0 where
  pub entry : Entry
  pub entries : v.entries ≡ w.entries ++ entry ∷ []
  pub owner : entry.session_id ≡ vs.memory_session_id
  pub content : entry.content_json ≡ state_content vs prior frame

-- the event that follows the entry touches no entry
entries-announce :
    (e : EventArgs) (w : World) → ((ensure_system_run >> write_event e) w).1.entries ≡ w.entries
unfolding ensure_system_run
entries-announce e w = ground arith

module _ (vs : VoiceSession) (prior : Option VoiceState) (frame : VoiceFrame) (w : World) where
  abbrev writes_entry : M Session
  writes_entry =
      append_entry vs.memory_session_id "system" (state_content vs prior frame)
        (some (transition_summary vs prior frame))

  pub record_transition-StateEntry :
      {r : String}
      → (record_transition vs prior frame w).0 ≡ ok r
      → StateEntry vs prior frame w (record_transition vs prior frame w).1
  unfolding record_transition
  record_transition-StateEntry h =
      let a =
        >>=-Returned writes_entry
          (λ _. ensure_system_run >> write_event (transition_event vs prior frame)) w h in
      record {
        entry =
            added vs.memory_session_id "system" (state_content vs prior frame)
              (some (transition_summary vs prior frame)) w;
        entries =
            ap (λ v. v.entries) a.state
            ∙ entries-announce (transition_event vs prior frame) (writes_entry w).1
            ∙ append_entry-entries vs.memory_session_id "system" (state_content vs prior frame)
                (some (transition_summary vs prior frame)) w a.first;
        owner = refl;
        content = refl;
      }

-- a state entry at the end is the newest
pub latest-entry :
    (vs : VoiceSession) (e : Entry) (es : List Entry)
    → entry_state vs.memory_session_id e ≡ some vs.state
    → latest_state vs.memory_session_id (es ++ e ∷ []) ≡ some vs.state
latest-entry vs e es h = rw (latest_state-append, h)

-- a state entry determines the state of its session
pub entry_state-StateEntry :
    {vs : VoiceSession} {prior : Option VoiceState} {frame : VoiceFrame} {w v : World}
    → (s : StateEntry vs prior frame w v) → IsKnown vs.state
    → entry_state vs.memory_session_id s.entry ≡ some vs.state
entry_state-StateEntry {vs} s k =
    rw (s.owner, s.content, eq_refl, state_of_name-state_name vs.state k)

-- An interruption's own entry says nothing of the state, if its payload has no "kind".
pub entry_state-interruption :
    (k : String) (frame : VoiceFrame) (e : Entry)
    → e.content_json ≡ interruption_content frame
    → Json.get "kind" frame.payload ≡ none
    → entry_state k e ≡ none
entry_state-interruption k frame e c h =
    ground (arith, c, get-merge_absent "kind" (interruption_base frame) frame.payload h)
