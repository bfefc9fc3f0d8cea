-- ===== src/Voice/Session/States.antt =====
-- The states and frames of a voice session, and `_TRANSITIONS`.
use jarvis_awf.Prelude.{String, ◌≡◌, refl, Option, none, some, ◌==◌, if◌then◌else◌}

-- `unknown` stands for a state text that a foreign entry may hold.
pub data VoiceState : Type 0 where
  idle armed listening transcribing submitting speaking recovering closed : VoiceState
  unknown : String → VoiceState

pub data FrameType : Type 0 where
  session_started session_idle session_closed wake_detected vad_speech_started : FrameType
  vad_speech_stopped stt_partial stt_final core_submitted core_output_text : FrameType
  tts_audio_chunk tts_done interruption error : FrameType

abbrev pub state_name : VoiceState → String
state_name idle = "idle"
state_name armed = "armed"
state_name listening = "listening"
state_name transcribing = "transcribing"
state_name submitting = "submitting"
state_name speaking = "speaking"
state_name recovering = "recovering"
state_name closed = "closed"
state_name (unknown s) = s

abbrev pub frame_name : FrameType → String
frame_name session_started = "session.started"
frame_name session_idle = "session.idle"
frame_name session_closed = "session.closed"
frame_name wake_detected = "wake.detected"
frame_name vad_speech_started = "vad.speech_started"
frame_name vad_speech_stopped = "vad.speech_stopped"
frame_name stt_partial = "stt.partial"
frame_name stt_final = "stt.final"
frame_name core_submitted = "core.submitted"
frame_name core_output_text = "core.output_text"
frame_name tts_audio_chunk = "tts.audio_chunk"
frame_name tts_done = "tts.done"
frame_name interruption = "interruption"
frame_name error = "error"

-- reading the text back
unfoldable pub state_of_name : String → VoiceState
state_of_name s =
    if s == "idle"
    then idle
    else if s == "armed"
    then armed
    else if s == "listening"
    then listening
    else if s == "transcribing"
    then transcribing
    else if s == "submitting"
    then submitting
    else if s == "speaking"
    then speaking
    else if s == "recovering"
    then recovering
    else if s == "closed"
    then closed
    else unknown s

-- `_TRANSITIONS.get((state, frame_type))`
unfoldable pub transition : VoiceState → FrameType → Option VoiceState
transition idle session_started = some idle
transition armed session_started = some armed
transition idle session_idle = some idle
transition armed session_idle = some armed
transition listening session_idle = some idle
transition recovering session_idle = some idle
transition idle wake_detected = some listening
transition armed wake_detected = some listening
transition idle vad_speech_started = some listening
transition armed vad_speech_started = some listening
transition listening stt_partial = some listening
transition listening vad_speech_stopped = some transcribing
transition transcribing stt_partial = some transcribing
transition transcribing stt_final = some submitting
transition submitting core_submitted = some submitting
transition submitting core_output_text = some speaking
transition speaking tts_audio_chunk = some speaking
transition speaking tts_done = some idle
transition speaking vad_speech_started = some listening
transition speaking interruption = some listening
transition listening interruption = some listening
transition idle error = some recovering
transition armed error = some recovering
transition listening error = some recovering
transition transcribing error = some recovering
transition submitting error = some recovering
transition speaking error = some recovering
transition recovering error = some recovering
transition _ _ = none

-- the states of `VoiceSessionState`
abbrev pub IsKnown : VoiceState → Type 0
IsKnown (unknown s) = ⊥
IsKnown _ = Unit

pub state_of_name-state_name : (s : VoiceState) → IsKnown s → state_of_name (state_name s) ≡ s
unfolding state_of_name
state_of_name-state_name (unknown s) h = absurd h
state_of_name-state_name idle h = refl
state_of_name-state_name _ h = refl
