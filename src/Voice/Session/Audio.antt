-- ===== src/Voice/Session/Audio.antt =====
-- Raw audio in the payload of a frame, and what is recorded of it.
use jarvis_awf.Prelude.{String, ◌≡◌, ◌⊎◌, Option, none, some, List, [], ◌∷◌, All}
use jarvis_awf.Prelude.Table
use jarvis_awf.Json.{Value, str, obj, Dict, get}
use jarvis_awf.Database.{Session}

-- the four keys under which a payload carries raw audio
abbrev pub audio_keys : List String
audio_keys = "audio" ∷ "audio_bytes" ∷ "pcm" ∷ "samples" ∷ []

abbrev pub IsRedacted : Option Value → Type 0
IsRedacted v = (v ≡ none) ⊎ (v ≡ some (str "<redacted>"))

-- its payload is there, and has no raw audio under these keys
abbrev pub HoldsRedacted : Dict → Type 0
HoldsRedacted d =
    (payload : Dict) × (get "payload" d ≡ some (obj payload))
    × All (λ k. IsRedacted (get k payload)) audio_keys
