-- ===== src/Memory/Sessions.antt =====
-- backend/src/awf/memory/sessions.py: active sessions and their entries.
pub mod Append
use jarvis_awf.Prelude.{
  ℕ, ◌+◌, ◌*◌, String, Bool, true, false, ◌&&◌, ◌||◌, Option, none, some, List, [], ◌∷◌, ◌++◌, leb,
  if◌then◌else◌,
}
use jarvis_awf.Prelude.Table
use jarvis_awf.Json.{Dict}
use jarvis_awf.Exec.{Exn, plain, session_error, ok, pure, raise, gets, or_raise, ◌>>=◌, ◌>>◌}
use jarvis_awf.Database.{
  World, M, Session, SessionStatus, active, expired, Entry, utc_now_rfc3339, uuid7,
}

abbrev is_expired : SessionStatus → Bool
is_expired expired = true
is_expired _ = false

abbrev is_active : SessionStatus → Bool
is_active active = true
is_active _ = false

-- `row["expires_at"] and now >= row["expires_at"]`
abbrev is_over : Option ℕ → ℕ → Bool
is_over none now = false
is_over (some t) now = leb t now

abbrev update_session : String → (Session → Session) → M Unit
update_session k f w = (ok tt, record w { sessions = Table.update k f w.sessions })

abbrev fetch_session : String → M Session
fetch_session k w = or_raise (plain session_error "no such session") (Table.get k w.sessions) w

abbrev expire : String → ℕ → M Unit
expire session_id now =
    update_session session_id (λ s. record s { status = expired; updated_at = now })

-- The part of show_session that changes state; the entries that it also returns are `World.entries`.
unfoldable pub show_session : String → M Session
show_session session_id = do
  row ← fetch_session session_id
  now ← utc_now_rfc3339
  if is_active row.status && is_over row.expires_at now
      then (expire session_id now >> fetch_session session_id)
      else pure row

-- the expiry is computed from `ttl_hours` where no `expires_at` is given
abbrev expiry : ℕ → Option ℕ → Option ℕ
expiry now none = none
expiry now (some hours) = some (now + hours * 3600)

unfoldable pub start_session : Option String → Option ℕ → M String
unfolding show_session
start_session title ttl_hours = do
  session_id ← uuid7
  now ← utc_now_rfc3339
  insert_session session_id (record {
    title = title;
    status = active;
    summary = none;
    created_at = now;
    updated_at = now;
    expires_at = expiry now ttl_hours;
  })
  show_session session_id
  pure session_id
  where
    insert_session : String → Session → M Unit
    insert_session k s w = (ok tt, record w { sessions = Table.insert_new k s w.sessions })

abbrev pub entry_row : String → String → Dict → Option String → ℕ → World → Entry
entry_row session_id role content summary now w = record {
  entry_id = w.outside.uuid w.issued;
  session_id = session_id;
  role = role;
  content_json = content;
  summary = summary;
  created_at = now;
}

-- the INSERT of an entry
abbrev insert_entry : String → String → Dict → Option String → ℕ → M Unit
insert_entry session_id role content summary now w = (
  ok tt,
  record w {
    entries = w.entries ++ entry_row session_id role content summary now w ∷ [];
    issued = w.issued + 1;
  },
)

-- an expired session is marked, and refuses the entry
abbrev refuse : String → Session → ℕ → M Session
refuse session_id row now =
    (if is_expired row.status then pure tt else expire session_id now)
    >> raise (plain session_error "session is expired")

unfoldable pub append_entry : String → String → Dict → Option String → M Session
unfolding show_session
append_entry session_id role content summary = do
  row ← fetch_session session_id
  now ← utc_now_rfc3339
  if is_expired row.status || is_over row.expires_at now then refuse session_id row now else do
    insert_entry session_id role content summary now
    update_session session_id (λ s. record s { updated_at = now })
    show_session session_id
