-- ===== src/Store/Sessions/Rows.antt =====
-- What the statements of internal/storage/sqlite/session_repository.go do to the rows.
use go_mediaarchive.Base.{
  Bool, true, false, not, ◌&&◌, ◌||◌, Option, none, some, [], ◌∷◌, if◌then◌else◌, any, map,
}
use go_mediaarchive.Go.Text.{Text, text_eq}
use go_mediaarchive.Go.Time.{Time}
use go_mediaarchive.Go.Failure.{Result, ok, err, session_not_found, driver}
use go_mediaarchive.Session.{Session, zero_time}
use go_mediaarchive.Store.Tables.{Database, SessionRow}

abbrev pub is_open : SessionRow → Bool
is_open r = elim r.revoked_at [ none ↦ true | some _ ↦ false ]

-- The columns that INSERT INTO sessions fills: a new session is never revoked.
abbrev pub session_row : Session → SessionRow
session_row s = record {
  token_hash = s.token_hash;
  user_id = s.user_id;
  created_at = s.created_at;
  last_seen_at = s.last_seen_at;
  expires_at = s.expires_at;
  revoked_at = none;
}

unfoldable pub add_session : Session → Database → Result Database
add_session s db =
    if any (λ r. text_eq r.token_hash s.token_hash) db.sessions
      || not (any (λ u. text_eq u.id s.user_id) db.users)
    then err (driver ∷ [])
    else ok (record db { sessions = session_row s ∷ db.sessions })

-- `FindByTokenHash` reads a row back; NULL becomes the zero time.
unfoldable pub stored_session : Option SessionRow → Result Session
stored_session none = err (session_not_found ∷ [])
stored_session (some r) = ok (record {
  token_hash = r.token_hash;
  user_id = r.user_id;
  created_at = r.created_at;
  last_seen_at = r.last_seen_at;
  expires_at = r.expires_at;
  revoked_at = elim r.revoked_at [ none ↦ zero_time | some t ↦ t ];
})

-- An open session with this hash: the rows that UPDATE … AND revoked_at IS NULL changes.
abbrev pub matches_open : Text → SessionRow → Bool
matches_open hash r = text_eq r.token_hash hash && is_open r

abbrev pub has_open_session : Text → Database → Bool
has_open_session hash db = any (matches_open hash) db.sessions

abbrev pub touched_row : Text → Time → SessionRow → SessionRow
touched_row hash now r = if matches_open hash r then record r { last_seen_at = now } else r

unfoldable pub touch_rows : Text → Time → Database → Result Database
touch_rows hash now db =
    if has_open_session hash db
    then ok (record db { sessions = map (touched_row hash now) db.sessions })
    else err (session_not_found ∷ [])

-- SET revoked_at = ? WHERE token_hash = ? AND revoked_at IS NULL
abbrev pub revoked_row : Text → Time → SessionRow → SessionRow
revoked_row hash now r = if matches_open hash r then record r { revoked_at = some now } else r

unfoldable pub revoke_first : Text → Time → Database → Database
revoke_first hash now db = record db { sessions = map (revoked_row hash now) db.sessions }

-- SET revoked_at = COALESCE(revoked_at, ?) WHERE token_hash = ?
abbrev pub coalesce : Option Time → Time → Option Time
coalesce none now = some now
coalesce (some t) now = some t

abbrev pub coalesced_row : Text → Time → SessionRow → SessionRow
coalesced_row hash now r =
    if text_eq r.token_hash hash then record r { revoked_at = coalesce r.revoked_at now } else r

unfoldable pub revoke_rows : Text → Time → Database → Database
revoke_rows hash now db = record db { sessions = map (coalesced_row hash now) db.sessions }
