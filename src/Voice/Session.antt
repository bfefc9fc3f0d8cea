-- ===== src/Voice/Session.antt =====
-- backend/src/awf/speech/session.py: the voice session state machine. A session's state is the
-- newest entry of kind "voice_state" in the active session of the same identifier.
pub mod States
pub mod Entries
pub mod Frames
pub mod Traces
pub mod Audio
use jarvis_awf.Prelude.{
  ℕ, is_some, String, ◌<>◌, Bool, true, false, ◌&&◌, Option, none, some, List, [], ◌∷◌, ◌==◌,
  if◌then◌else◌,
}
use jarvis_awf.Json
use jarvis_awf.Json.{Value, null, bool, str, obj, Dict, end, field, merge, contains, put}
use jarvis_awf.Exec.{
  gets, Result, ok, err, plain, voice_session_error, pure, raise, or_raise, lift, when, ◌>>=◌, ◌>>◌,
}
use jarvis_awf.Database.{
  World, M, Session, Entry, EventArgs, write_event, utc_now_rfc3339, Run, RunStatus, succeeded,
}
use jarvis_awf.Prelude.Table
use jarvis_awf.Memory.Sessions.{start_session, append_entry}
use States.{
  VoiceState, idle, armed, closed, unknown, FrameType, session_started, session_closed,
  interruption, state_name, frame_name, state_of_name, transition,
}

pub record VoiceFrame : Type 0 where
  pub frame_type : FrameType
  pub payload : Dict
  pub turn_id : Option String

pub record VoiceSession : Type 0 where
  pub voice_session_id : String
  pub memory_session_id : String
  pub state : VoiceState

abbrev optional : Option String → Value
optional none = null
optional (some s) = str s

unfoldable pub redact_key : String → Dict → Dict
redact_key key d = if contains key d then put key (str "<redacted>") d else d

-- _redact_audio: the loop over the four keys
unfoldable pub redact_audio : Dict → Dict
redact_audio payload =
    redact_key "samples" (redact_key "pcm" (redact_key "audio_bytes" (redact_key "audio" payload)))

abbrev prior_name : Option VoiceState → Option String
prior_name none = none
prior_name (some s) = some (state_name s)

abbrev name_or_none : Option VoiceState → String
name_or_none none = "none"
name_or_none (some s) = state_name s

-- the payload of the entry and of the event
abbrev transition_payload : VoiceSession → Option VoiceState → VoiceFrame → Dict
transition_payload vs prior frame = field "voice_session_id" (str vs.voice_session_id) (
    field "memory_session_id" (str vs.memory_session_id) (
      field "frame_type" (str (frame_name frame.frame_type)) (
        field "prior_state" (optional (prior_name prior)) (
          field "state" (str (state_name vs.state)) (
            field "turn_id" (optional frame.turn_id)
              (field "payload" (obj (redact_audio frame.payload)) end))))))

-- `{"kind": "voice_state", **payload}`
abbrev pub state_content : VoiceSession → Option VoiceState → VoiceFrame → Dict
state_content vs prior frame = field "kind" (str "voice_state") (transition_payload vs prior frame)

abbrev pub system_run_id : String
system_run_id = "system"

-- the INSERT of hardware/profiler._ensure_system_run
abbrev pub system_run : ℕ → Run
system_run now = record {
  workflow_ref = "system@0.0.0";
  status = succeeded;
  input_json = end;
  output_json = none;
  created_at = now;
  updated_at = now;
}

abbrev pub insert_run : String → Run → M Unit
insert_run k row w = (ok tt, record w { runs = Table.insert_new k row w.runs })

-- hardware/profiler._ensure_system_run
unfoldable pub ensure_system_run : M Unit
ensure_system_run = do
  found ← gets (λ w. is_some (Table.get system_run_id w.runs))
  if found then pure tt else do now ← utc_now_rfc3339; insert_run system_run_id (system_run now)

-- f"{frame_type}: {prior_state or 'none'} -> {state}"
unfoldable pub transition_summary : VoiceSession → Option VoiceState → VoiceFrame → String
transition_summary vs prior frame =
    frame_name frame.frame_type <> (": " <> (name_or_none prior <> (" -> " <> state_name vs.state)))

abbrev pub transition_event : VoiceSession → Option VoiceState → VoiceFrame → EventArgs
transition_event vs prior frame = record {
  run = system_run_id;
  step = none;
  prior = prior_name prior;
  status = state_name vs.state;
  actor = "voice_session";
  reason = "voice_session_frame";
  payload = transition_payload vs prior frame;
}

-- _record_transition
unfoldable pub record_transition : VoiceSession → Option VoiceState → VoiceFrame → M String
record_transition vs prior frame = do
  append_entry vs.memory_session_id "system" (state_content vs prior frame)
      (some (transition_summary vs prior frame))
  ensure_system_run
  write_event (transition_event vs prior frame)

abbrev is_voice_state : Dict → Bool
is_voice_state content = elim (Json.get "kind" content) [
  | some (str k) ↦ k == "voice_state"
  | _ ↦ false
]

-- `content["state"]`
abbrev state_of_content : Dict → VoiceState
state_of_content content = elim (Json.get "state" content) [
  | some (str s) ↦ state_of_name s
  | _ ↦ unknown ""
]

-- what one entry says of the state of a session
abbrev pub entry_state : String → Entry → Option VoiceState
entry_state session_id e =
    if e.session_id == session_id && is_voice_state e.content_json
    then some (state_of_content e.content_json)
    else none

abbrev pub newer : Option VoiceState → Option VoiceState → Option VoiceState
newer none o = o
newer (some s) o = some s

-- The newest state entry of the session: the rows by rowid DESC, so a later match wins.
unfoldable pub latest_state : String → List Entry → Option VoiceState
latest_state session_id [] = none
latest_state session_id (e ∷ es) = newer (latest_state session_id es) (entry_state session_id e)

abbrev as_session : String → Option VoiceState → Option VoiceSession
as_session k none = none
as_session k (some s) = some (record { voice_session_id = k; memory_session_id = k; state = s })

unfoldable pub current_voice_session : String → M VoiceSession
current_voice_session k w =
    or_raise (plain voice_session_error "voice session has no state entry")
      (as_session k (latest_state k w.entries)) w

abbrev wake_state : Bool → VoiceState
wake_state true = armed
wake_state false = idle

abbrev text_or : String → Option String → String
text_or d none = d
text_or d (some s) = if s == "" then d else s

unfoldable pub start_voice_session : Option String → Bool → M VoiceSession
start_voice_session title wake_enabled = do
  session_id ← start_session (some (text_or "Voice session" title)) (some 72)
  let vs : VoiceSession = record {
    voice_session_id = session_id;
    memory_session_id = session_id;
    state = wake_state wake_enabled;
  }
  record_transition vs none (record {
    frame_type = session_started;
    payload = field "wake_enabled" (bool wake_enabled) end;
    turn_id = none;
  })
  pure vs

abbrev is_closed : VoiceState → Bool
is_closed closed = true
is_closed _ = false

-- a frame that closes the session does so in every state
abbrev pub next_state : VoiceState → FrameType → Option VoiceState
next_state state session_closed = some closed
next_state state frame_type = transition state frame_type

abbrev is_interruption : FrameType → Bool
is_interruption interruption = true
is_interruption _ = false

abbrev pub interruption_base : VoiceFrame → Dict
interruption_base frame =
    field "kind" (str "voice_interruption") (field "turn_id" (optional frame.turn_id) end)

-- the content of the entry that an interruption adds
abbrev pub interruption_content : VoiceFrame → Dict
interruption_content frame = merge (interruption_base frame) frame.payload

-- the `if` at the end of `accept_frame`
unfoldable pub note_interruption : VoiceSession → VoiceFrame → M VoiceSession
note_interruption next frame =
    if is_interruption frame.frame_type
    then (append_entry next.memory_session_id "system" (interruption_content frame)
          (some "voice interruption")
        >> pure next)
    else pure next

-- the second half of `accept_frame`, from the state that the frame leads to
unfoldable pub advance : VoiceSession → VoiceFrame → Option VoiceState → M VoiceSession
advance vs frame none = raise (plain voice_session_error "cannot accept the frame in this state")
advance vs frame (some state) = do
  record_transition (record vs { state = state }) (some vs.state) frame
  note_interruption (record vs { state = state }) frame

unfoldable pub accept_frame : String → VoiceFrame → M VoiceSession
unfolding current_voice_session
accept_frame voice_session_id frame = do
  vs ← current_voice_session voice_session_id
  if is_closed vs.state
      then raise (plain voice_session_error "voice session is closed")
      else advance vs frame (next_state vs.state frame.frame_type)

pub append_operator_utterance : String → String → Option String → M Session
append_operator_utterance voice_session_id text turn_id =
    append_entry voice_session_id "operator"
      (field "kind" (str "voice_utterance")
        (field "text" (str text) (field "turn_id" (optional turn_id) end)))
      (some text)

pub append_assistant_response :
    String → String → String → String → Option String → Option String → M Session
append_assistant_response voice_session_id text voice_profile_ref voice_id turn_id run_id =
    append_entry voice_session_id "assistant"
      (field "kind" (str "voice_response") (
        field "text" (str text) (
          field "voice_profile_ref" (str voice_profile_ref) (
            field "voice_id" (str voice_id)
              (field "turn_id" (optional turn_id) (field "run_id" (optional run_id) end))))))
      (some text)
