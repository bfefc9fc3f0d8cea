-- ===== src/Voice/Session/Traces.antt =====
-- A voice session over a sequence of frames.
use jarvis_awf.Prelude.{
  ◌≡◌, refl, Bool, true, false, Option, none, some, List, [], ◌∷◌, arith, any, All, sym, ap, ◌∙◌,
  Bool-cases, inl, inr,
}
use jarvis_awf.Exec.{ok, err, plain, voice_session_error, or_raise, pure, ◌>>◌}
use jarvis_awf.Exec.Inversion.{>>=-Returned, ok-injective}
use jarvis_awf.Prelude.{String}
use jarvis_awf.Database.{World, M}
use jarvis_awf.Voice.Session.States.{
  VoiceState, submitting, speaking, closed, FrameType, stt_final, transition,
}
use jarvis_awf.Voice.Session.{
  VoiceFrame, VoiceSession, as_session, next_state, latest_state, current_voice_session,
  accept_frame,
}
use jarvis_awf.Voice.Session.Frames.{KeepsKind, accept_frame-current}

-- frames that are accepted one after another
unfoldable pub accept_frames : String → List VoiceFrame → M Unit
accept_frames k [] = pure tt
accept_frames k (frame ∷ frames) = accept_frame k frame >> accept_frames k frames

-- the states that follow the final transcript of an utterance
abbrev pub is_after_final : VoiceState → Bool
is_after_final submitting = true
is_after_final speaking = true
is_after_final _ = false

abbrev pub is_final : FrameType → Bool
is_final stt_final = true
is_final _ = false

-- Only the final transcript leads there from outside.
next_state-final :
    (s : VoiceState) (f : FrameType) (t : VoiceState)
    → is_after_final s ≡ false
    → next_state s f ≡ some t
    → is_final f ≡ false
    → is_after_final t ≡ false
unfolding transition
next_state-final s f t a h n = ground arith

-- a session that is read in this state has it in its latest entry
latest_of_current :
    (k : String) (w : World) (r : VoiceSession)
    → (current_voice_session k w).0 ≡ ok r
    → latest_state k w.entries ≡ some r.state
unfolding current_voice_session
latest_of_current k w r h = from (latest_state k w.entries) h
  where
    from :
        (o : Option VoiceState)
        → (or_raise
            (plain voice_session_error "voice session has no state entry")
            (as_session k o)
            w).0
          ≡ ok r
        → o ≡ some r.state
    from none g = absurd (cc g)
    from (some s) g = ap (λ (v : VoiceSession). some v.state) (ok-injective g)

-- Where no payload has a key `kind`, and all of these frames are accepted one after another: a
-- session in a state other than submitting and speaking is in one of these only after a final
-- transcript was among the frames.
pub accept_frames-final :
    (k : String) (frames : List VoiceFrame) (w : World) (s t : VoiceState)
    → All KeepsKind frames
    → latest_state k w.entries ≡ some s
    → is_after_final s ≡ false
    → (accept_frames k frames w).0 ≡ ok tt
    → latest_state k (accept_frames k frames w).1.entries ≡ some t
    → is_after_final t ≡ true
    → any (λ frame. is_final frame.frame_type) frames ≡ true
unfolding accept_frames
accept_frames-final k [] w s t keeps at a h l b =
    let same : some s ≡ some t = sym at ∙ l in
    absurd (apart (ap (λ (o : Option VoiceState). elim o [ none ↦ s | some x ↦ x ]) same))
  where
    apart : s ≡ t → ⊥
    apart e = cc (e, a, b)
accept_frames-final k (frame ∷ frames) w s t keeps at a h l b =
    let r = >>=-Returned (accept_frame k frame) (λ u. accept_frames k frames) w h in
    let (before, e, c, n) = accept_frame-current k frame keeps.0 w r.first in
    let same : s ≡ before = cc in
    let next : next_state s frame.frame_type ≡ some r.value.state = rw same n in
    elim (Bool-cases (is_final frame.frame_type)) [
      | inl p ↦ rw p refl
      | inr p ↦ rw p (
          accept_frames-final k frames (accept_frame k frame w).1 r.value.state t keeps.1
            (latest_of_current k (accept_frame k frame w).1 r.value c)
            (next_state-final s frame.frame_type r.value.state a next p) r.second
            (sym (ap (λ (v : World). latest_state k v.entries) r.state) ∙ l) b)
    ]

-- A closed session refuses every frame, and the refusal changes nothing.
pub accept_frame-closed :
    (k : String) (frame : VoiceFrame) (w : World)
    → latest_state k w.entries ≡ some closed
    → accept_frame k frame w ≡ (err (plain voice_session_error "voice session is closed"), w)
unfolding accept_frame current_voice_session
accept_frame-closed k frame w h = ground arith
