-- ===== src/Store/Sessions/Revocation.antt =====
-- Audited revocations, and histories of session calls.
use go_mediaarchive.Base.{◌≡◌, refl, sym, subst, Bool, true, false, inl, inr, List, [], ◌∷◌, arith}
use go_mediaarchive.Go.Text.{Text}
use go_mediaarchive.Go.Time.{Time, to_utc}
use go_mediaarchive.Go.Failure.{Result, ok}
use go_mediaarchive.Go.Action.{Action, ◌>>=◌}
use go_mediaarchive.Identity.Username.{Platform}
use go_mediaarchive.Session.{Session}
use go_mediaarchive.Audit.{Event}
use go_mediaarchive.Store.Tables.{Database, World}
use go_mediaarchive.Store.Statements.{statement}
use go_mediaarchive.Store.Statements.Atomicity.{statement_keeps}
use go_mediaarchive.Store.Statements.Success.{
  Succeeds, >>=-Succeeds, exec-Succeeds, transaction_or_return-db, transaction_or_return-true,
  Keeps,
}
use go_mediaarchive.Store.Users.Effects.{insert_audit_event-Succeeds}
use go_mediaarchive.Store.Sessions.Rows.{revoke_first, has_open_session}
use go_mediaarchive.Store.Sessions.{
  create_session_with_audit, touch, revoke, revoke_open, revoke_with_audit, record_revocation,
}
use go_mediaarchive.Store.Sessions.Effects.{
  IsClosed, same_sessions, Recorded-sessions, revoke_first-IsClosed, revoke_first-closes,
  create_session_with_audit-IsClosed, touch-IsClosed, revoke-IsClosed,
}

revoke_parts :
    (hash : Text) (now : Time) (u y z x : World) (b c : Bool)
    → ◌≡◌ {A = Result Bool × World} (ok (has_open_session hash u.db), u) (ok c, y)
    → ok (revoke_first hash now y.db) ≡ ok z.db
    → ◌≡◌ {A = Result Bool × World} (ok c, z) (ok b, x)
    → (b ≡ has_open_session hash u.db) × (x.db ≡ revoke_first hash now u.db)
revoke_parts hash now u y z x b c p q r = ground arith

revoked_sessions :
    (hash : Text) (now : Time) (a b c d e : Database) (o : Bool)
    → b ≡ a
    → (o ≡ has_open_session hash b) × (c ≡ revoke_first hash now b)
    → (o ≡ true) × (d.sessions ≡ c.sessions)
    → e ≡ d
    → (has_open_session hash a ≡ true) × (e.sessions ≡ (revoke_first hash now a).sessions)
revoked_sessions hash now a b c d e o p q r s = ground arith

revoke_open-Succeeds :
    (hash : Text) (now : Time) (u : World) (b : Bool) (x : World)
    → Succeeds (revoke_open hash now) u b x
    → (b ≡ has_open_session hash u.db) × (x.db ≡ revoke_first hash now u.db)
unfolding revoke_open
revoke_open-Succeeds hash now u b x h =
    let (c, y, asked, rest) = >>=-Succeeds _ _ u b x h in
    let (_, z, done, returned) = >>=-Succeeds _ _ y b x rest in
    let d = exec-Succeeds (λ db. ok (revoke_first hash now db)) y z done in
    revoke_parts hash now u y z x b c asked d.0 returned

record_revocation-Succeeds :
    (g : Platform) (e : Event) (b : Bool) (x v : World)
    → Succeeds (record_revocation g e b) x true v
    → (b ≡ true) × (v.db.sessions ≡ x.db.sessions)
unfolding record_revocation
record_revocation-Succeeds g e false x v h = cc
record_revocation-Succeeds g e true x v h =
    let (_, y, recorded, returned) = >>=-Succeeds _ _ x true v h in
    let s = Recorded-sessions g e x.db y.db (insert_audit_event-Succeeds g e x y recorded) in
    (refl, ground (arith, s, returned))

abbrev revocation : Platform → Text → Time → Event → Action World Bool
revocation g hash now e = revoke_open hash (to_utc now) >>= record_revocation g e

revocation-sessions :
    (g : Platform) (hash : Text) (now : Time) (e : Event) (w : World) (after : Database)
    → (revocation g hash now e (statement w).1).0 ≡ ok true
    → after ≡ (revocation g hash now e (statement w).1).1.db
    → (has_open_session hash w.db ≡ true)
      × (after.sessions ≡ (revoke_first hash (to_utc now) w.db).sessions)
revocation-sessions g hash now e w after done db =
    let body = revocation g hash now e in
    let u = (statement w).1 in
    let ran : Succeeds body u true (body u).1 = λ i. (done i, (body u).1) in
    let (b, x, opened, rest) = >>=-Succeeds _ _ u true (body u).1 ran in
    let o = revoke_open-Succeeds hash (to_utc now) u b x opened in
    let r = record_revocation-Succeeds g e b x (body u).1 rest in
    revoked_sessions hash (to_utc now) w.db u.db x.db (body u).1.db after b (statement_keeps w).0 o
      r db

-- An audited revocation that reports success closes the session.
pub revoke_with_audit-closes :
    (g : Platform) (hash : Text) (now : Time) (e : Event) (w : World)
    → (revoke_with_audit g hash now e w).0 ≡ ok true
    → IsClosed hash (revoke_with_audit g hash now e w).1.db
unfolding revoke_with_audit
revoke_with_audit-closes g hash now e w h =
    let (done, db) = transaction_or_return-true (revocation g hash now e) w h in
    let (was_open, rows) = revocation-sessions g hash now e w _ done db in
    same_sessions hash (revoke_first hash (to_utc now) w.db) _ rows
      (revoke_first-closes hash (to_utc now) w.db was_open)

pub revoke_with_audit-IsClosed :
    (g : Platform) (hash other : Text) (now : Time) (e : Event)
    → Keeps (IsClosed hash) (revoke_with_audit g other now e)
unfolding revoke_with_audit
revoke_with_audit-IsClosed g hash other now e w c =
    elim (transaction_or_return-db (revocation g other now e) w) [
      | inl same ↦ subst (IsClosed hash) (sym same) c
      | inr (done, db) ↦
          same_sessions hash (revoke_first other (to_utc now) w.db) _
            (revocation-sessions g other now e w _ done db).1
            (revoke_first-IsClosed hash other (to_utc now) w.db c)
    ]

-- The calls that change sessions.
pub data SessionCall : Type 0 where
  creates : Session → Event → SessionCall
  touches : Text → Time → SessionCall
  revokes : Text → Time → SessionCall
  revokes_audited : Text → Time → Event → SessionCall

unfoldable pub session_history : Platform → List SessionCall → World → World
session_history g [] w = w
session_history g (creates s e ∷ cs) w = session_history g cs (create_session_with_audit g s e w).1
session_history g (touches hash now ∷ cs) w = session_history g cs (touch hash now w).1
session_history g (revokes hash now ∷ cs) w = session_history g cs (revoke hash now w).1
session_history g (revokes_audited hash now e ∷ cs) w =
    session_history g cs (revoke_with_audit g hash now e w).1

-- After any calls of the session repository, whatever the driver does, a closed session is closed.
pub session_history-IsClosed :
    (g : Platform) (hash : Text) (cs : List SessionCall) (w : World)
    → IsClosed hash w.db
    → IsClosed hash (session_history g cs w).db
unfolding session_history
session_history-IsClosed g hash [] w c = c
session_history-IsClosed g hash (creates s e ∷ cs) w c =
    session_history-IsClosed g hash cs _ (create_session_with_audit-IsClosed g hash s e w c)
session_history-IsClosed g hash (touches other now ∷ cs) w c =
    session_history-IsClosed g hash cs _ (touch-IsClosed hash other now w c)
session_history-IsClosed g hash (revokes other now ∷ cs) w c =
    session_history-IsClosed g hash cs _ (revoke-IsClosed hash other now w c)
session_history-IsClosed g hash (revokes_audited other now e ∷ cs) w c =
    session_history-IsClosed g hash cs _ (revoke_with_audit-IsClosed g hash other now e w c)
