-- ===== src/Memory/Sessions/Append.antt =====
-- What `append_entry` leaves behind, whether it returns or raises.
use jarvis_awf.Prelude.{String, ◌≡◌, Option, [], ◌∷◌, ◌++◌, arith}
use jarvis_awf.Json.{Dict}
use jarvis_awf.Exec.{ok}
use jarvis_awf.Database.{World, Session, Entry}
use jarvis_awf.Memory.Sessions.{append_entry, entry_row}

module _ (k role : String) (content : Dict) (summary : Option String) (w : World) where
  abbrev pub added : Entry
  added = entry_row k role content summary (w.outside.clock w.readings) w

  -- an accepted entry is the last one, and the others stay
  pub append_entry-entries :
      {s : Session}
      → (append_entry k role content summary w).0 ≡ ok s
      → (append_entry k role content summary w).1.entries ≡ w.entries ++ added ∷ []
  unfolding append_entry
  append_entry-entries h = ground arith
