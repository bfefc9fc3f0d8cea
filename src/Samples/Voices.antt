-- ===== src/Samples/Voices.antt =====
-- A voice session that speaks.
use jarvis_awf.Prelude.{String, ◌≡◌, refl, true, some, none, List, [], ◌∷◌, any}
use jarvis_awf.Prelude.Table
use jarvis_awf.Json.{end, field, str}
use jarvis_awf.Exec.{ok}
use jarvis_awf.Database.{World, Session, SessionStatus}
use jarvis_awf.Memory.Sessions.{append_entry, show_session}
use jarvis_awf.Voice.Session.States.{
  VoiceState, listening, submitting, interruption, vad_speech_stopped, stt_final, state_of_name,
  transition,
}
use jarvis_awf.Voice.Session.{
  VoiceFrame, VoiceSession, accept_frame, current_voice_session, latest_state, next_state, advance,
  record_transition, note_interruption, ensure_system_run,
}
use jarvis_awf.Voice.Session.Frames.{KeepsKind, accept_frame-current}
use jarvis_awf.Voice.Session.Traces.{accept_frames, is_final, accept_frames-final}
use jarvis_awf.Samples.{nothing}

abbrev session_row : Session
session_row = record {
  title = none;
  status = SessionStatus.active;
  summary = none;
  created_at = 0;
  updated_at = 0;
  expires_at = none;
}

-- a session with a state entry that names this state
abbrev session_in : String → World
session_in state = record nothing {
  sessions = Table.insert_new "v" session_row Table.empty;
  entries =
      record {
        entry_id = "e";
        session_id = "v";
        role = "system";
        content_json = field "kind" (str "voice_state") (field "state" (str state) end);
        summary = none;
        created_at = 0;
      }
      ∷ [];
}

abbrev interrupts : VoiceFrame
interrupts = record {
  frame_type = interruption;
  payload = field "audio" (str "raw") end;
  turn_id = none;
}

keeps_kind : KeepsKind interrupts
keeps_kind = refl

abbrev listens : VoiceSession
listens = record { voice_session_id = "v"; memory_session_id = "v"; state = listening }

accepted : (accept_frame "v" interrupts (session_in "speaking")).0 ≡ ok listens
unfolding accept_frame current_voice_session latest_state state_of_name transition advance
    record_transition note_interruption append_entry show_session ensure_system_run Table.get
    Table.insert_new Table.update Table.empty
accepted = refl

accept_frame-current_example :
    (s : VoiceState) × (latest_state "v" (session_in "speaking").entries ≡ some s)
    × ((current_voice_session "v" (accept_frame "v" interrupts (session_in "speaking")).1).0
        ≡ ok listens)
    × (next_state s interruption ≡ some listening)
accept_frame-current_example =
    accept_frame-current "v" interrupts keeps_kind (session_in "speaking") accepted

-- the end of an utterance, and its transcript
abbrev utterance : List VoiceFrame
utterance =
    record { frame_type = vad_speech_stopped; payload = end; turn_id = none }
    ∷ record { frame_type = stt_final; payload = end; turn_id = none }
    ∷ []

spoken : (accept_frames "v" utterance (session_in "listening")).0 ≡ ok tt
unfolding accept_frames accept_frame current_voice_session latest_state state_of_name transition
    advance record_transition note_interruption append_entry show_session ensure_system_run
    Table.get Table.insert_new Table.update Table.empty
spoken = refl

submits :
    latest_state "v" (accept_frames "v" utterance (session_in "listening")).1.entries
    ≡ some submitting
unfolding accept_frames accept_frame current_voice_session latest_state state_of_name transition
    advance record_transition note_interruption append_entry show_session ensure_system_run
    Table.get Table.insert_new Table.update Table.empty
submits = refl

listening_there : latest_state "v" (session_in "listening").entries ≡ some listening
unfolding latest_state state_of_name
listening_there = refl

accept_frames-final_example : any (λ frame. is_final frame.frame_type) utterance ≡ true
accept_frames-final_example =
    accept_frames-final "v" utterance (session_in "listening") listening submitting
      (refl, (refl, tt)) listening_there refl spoken submits refl

abbrev hears : VoiceFrame
hears = record { frame_type = stt_final; payload = field "pcm" (str "raw") end; turn_id = none }
