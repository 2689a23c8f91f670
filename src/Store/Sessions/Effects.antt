-- ===== src/Store/Sessions/Effects.antt =====
-- A revoked session stays revoked.
use go_mediaarchive.Base.{
  ◌≡◌, refl, sym, subst, ◌∙◌, true, false, some, List, [], ◌∷◌, arith, any, map,
}
use go_mediaarchive.Go.Text.{Text, text_eq, text_eq→≡}
use go_mediaarchive.Go.Time.{Time, to_utc}
use go_mediaarchive.Go.Failure.{Result, ok, err}
use go_mediaarchive.Identity.Username.{Platform}
use go_mediaarchive.Session.{Session}
use go_mediaarchive.Audit.{Event}
use go_mediaarchive.Store.Tables.{Database, SessionRow}
use go_mediaarchive.Store.Statements.{statement, exec}
use go_mediaarchive.Store.Statements.Atomicity.{statement_keeps}
use go_mediaarchive.Store.Statements.Success.{
  >>=-Succeeds, exec-Succeeds, transaction-Succeeds, transaction-keeps, Keeps,
}
use go_mediaarchive.Store.Events.{add_event}
use go_mediaarchive.Store.Users.Effects.{Recorded, insert_audit_event-Succeeds}
use go_mediaarchive.Store.Sessions.Rows.{
  add_session, touched_row, touch_rows, revoked_row, coalesced_row, revoke_rows, revoke_first,
  matches_open, has_open_session, is_open,
}
use go_mediaarchive.Store.Sessions.{create_session_with_audit, touch, revoke}

-- A session with this hash is stored, and none that is not revoked.
pub record IsClosed (hash : Text) (db : Database) : Type 0 where
  pub stored : any (λ r. text_eq r.token_hash hash) db.sessions ≡ true
  pub closed : has_open_session hash db ≡ false

add_session-IsClosed :
    (hash : Text) (s : Session) (db after : Database)
    → add_session s db ≡ ok after
    → IsClosed hash db
    → IsClosed hash after
unfolding add_session
add_session-IsClosed hash s db after h c = ground (arith, text_eq→≡ s.token_hash hash)

-- The change of a row keeps its hash, and opens no row.
abbrev IsClosing : (SessionRow → SessionRow) → Type 0
IsClosing f =
    (r : SessionRow) → (f r).token_hash ≡ r.token_hash × (is_open r ≡ false → is_open (f r) ≡ false)

map-closed :
    (hash : Text) (f : SessionRow → SessionRow) (rows : List SessionRow)
    → IsClosing f
    → any (matches_open hash) rows ≡ false
    → (any (matches_open hash) (map f rows) ≡ false)
      × (any (λ r. text_eq r.token_hash hash) (map f rows)
          ≡ any (λ r. text_eq r.token_hash hash) rows)
map-closed hash f [] c h = (refl, refl)
map-closed hash f (r ∷ rows) c h = ground (arith, c r, map-closed hash f rows c)

touch_rows-IsClosed :
    (hash other : Text) (now : Time) (db after : Database)
    → touch_rows other now db ≡ ok after
    → IsClosed hash db
    → IsClosed hash after
unfolding touch_rows
touch_rows-IsClosed hash other now db after h c = ground (
  arith,
  map-closed hash (touched_row other now) db.sessions (λ r. (ground arith, λ e. ground arith))
      c.closed,
)

pub revoke_first-IsClosed :
    (hash other : Text) (now : Time) (db : Database)
    → IsClosed hash db
    → IsClosed hash (revoke_first other now db)
unfolding revoke_first
revoke_first-IsClosed hash other now db c =
    let m =
      map-closed hash (revoked_row other now) db.sessions (λ r. (ground arith, λ e. ground arith))
        c.closed in
    record { stored = m.1 ∙ c.stored; closed = m.0 }

revoke_rows-IsClosed :
    (hash other : Text) (now : Time) (db : Database)
    → IsClosed hash db
    → IsClosed hash (revoke_rows other now db)
unfolding revoke_rows
revoke_rows-IsClosed hash other now db c =
    let m =
      map-closed hash (coalesced_row other now) db.sessions (λ r. (ground arith, λ e. ground arith))
        c.closed in
    record { stored = m.1 ∙ c.stored; closed = m.0 }

revoked-closed :
    (hash : Text) (now : Time) (rows : List SessionRow)
    → (any (matches_open hash) (map (revoked_row hash now) rows) ≡ false)
      × (any (λ r. text_eq r.token_hash hash) (map (revoked_row hash now) rows)
          ≡ any (λ r. text_eq r.token_hash hash) rows)
revoked-closed hash now [] = (refl, refl)
revoked-closed hash now (r ∷ rows) = ground (arith, revoked-closed hash now rows)

open-stored :
    (hash : Text) (rows : List SessionRow)
    → any (matches_open hash) rows ≡ true
    → any (λ r. text_eq r.token_hash hash) rows ≡ true
open-stored hash [] h = h
open-stored hash (r ∷ rows) h = ground (arith, open-stored hash rows)

-- Revoking an open session closes it.
pub revoke_first-closes :
    (hash : Text) (now : Time) (db : Database)
    → has_open_session hash db ≡ true
    → IsClosed hash (revoke_first hash now db)
unfolding revoke_first
revoke_first-closes hash now db h =
    let m = revoked-closed hash now db.sessions in
    record { stored = m.1 ∙ open-stored hash db.sessions h; closed = m.0 }

pub same_sessions :
    (hash : Text) (a b : Database) → b.sessions ≡ a.sessions → IsClosed hash a → IsClosed hash b
same_sessions hash a b e c = ground (arith, c.stored, c.closed)

pub Recorded-sessions :
    (g : Platform) (e : Event) (a b : Database) → Recorded g (some e) a b → b.sessions ≡ a.sessions
unfolding add_event
Recorded-sessions g e a b h = ground arith

pub create_session_with_audit-IsClosed :
    (g : Platform) (hash : Text) (s : Session) (e : Event)
    → Keeps (IsClosed hash) (create_session_with_audit g s e)
unfolding create_session_with_audit
create_session_with_audit-IsClosed g hash s e w c =
    transaction-keeps (IsClosed hash) _ w c λ a w' h.
      let (u, v, same, _, body, after, _) = transaction-Succeeds _ w tt w' h in
      let (_, x, inserted, recorded) = >>=-Succeeds _ _ u tt v body in
      let i = exec-Succeeds (add_session s) u x inserted in
      let r = insert_audit_event-Succeeds g e x v recorded in
      let d = add_session-IsClosed hash s u.db x.db i.0 (subst (IsClosed hash) (sym same) c) in
      subst (IsClosed hash) (sym after)
        (same_sessions hash x.db v.db (Recorded-sessions g e x.db v.db r) d)

exec-IsClosed :
    (hash : Text) (f : Database → Result Database)
    → ((db after : Database) → f db ≡ ok after → IsClosed hash db → IsClosed hash after)
    → Keeps (IsClosed hash) (exec f)
unfolding exec
exec-IsClosed hash f h w c = go (f (statement w).1.db) refl
  where
    start : IsClosed hash (statement w).1.db
    start = subst (IsClosed hash) (sym (statement_keeps w).0) c

    go : (r : Result Database) → f (statement w).1.db ≡ r → IsClosed hash (exec f w).1.db
    go (ok after) e = ground (arith, h (statement w).1.db after e start, start)
    go (err x) e = ground (arith, start)

pub touch-IsClosed : (hash other : Text) (now : Time) → Keeps (IsClosed hash) (touch other now)
unfolding touch
touch-IsClosed hash other now =
    exec-IsClosed hash (touch_rows other (to_utc now)) (touch_rows-IsClosed hash other (to_utc now))

pub revoke-IsClosed : (hash other : Text) (now : Time) → Keeps (IsClosed hash) (revoke other now)
unfolding revoke
revoke-IsClosed hash other now =
    exec-IsClosed hash (λ db. ok (revoke_rows other (to_utc now) db))
      λ db after e c. ground (arith, revoke_rows-IsClosed hash other (to_utc now) db c)
