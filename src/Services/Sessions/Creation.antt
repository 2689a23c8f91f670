-- ===== src/Services/Sessions/Creation.antt =====
-- internal/application/sessions/service.go: what a login that succeeds has done.
use go_mediaarchive.Base.{◌≡◌, ◌≢◌, sym, subst, ap, ◌∙◌, some, [], arith, if◌then◌else◌}
use go_mediaarchive.Go.Text.{Text}
use go_mediaarchive.Go.Time.{Time}
use go_mediaarchive.Go.Failure.{ok, Error, is, invalid_credentials}
use go_mediaarchive.Go.Action.{Action, fail, ◌>>=◌, ◌>>◌}
use go_mediaarchive.Identity.Username.{Platform}
use go_mediaarchive.Identity.User.{User}
use go_mediaarchive.Session.{Session, new_session}
use go_mediaarchive.Audit.Kinds.{EventType, Outcome, TargetType, Reason}
use go_mediaarchive.Audit.{Event}
use go_mediaarchive.Store.Tables.{Database, World}
use go_mediaarchive.Store.Statements.Success.{
  Succeeds, >>=-Succeeds, exec-Succeeds, transaction-Succeeds,
}
use go_mediaarchive.Store.Users.Effects.{Recorded, insert_audit_event-Succeeds}
use go_mediaarchive.Store.Sessions.Rows.{add_session}
use go_mediaarchive.Store.Sessions.{create_session_with_audit}
use go_mediaarchive.Services.Events.Keeps.{new_actor_event-db}
use go_mediaarchive.Services.Users.Changes.{catch-Succeeds}
use go_mediaarchive.Services.Sessions.{
  SessionService, Created, record_denied_creation, create_for, create_session,
}

create_session_with_audit-Succeeds :
    (g : Platform) (s : Session) (event : Event) (w w' : World)
    → Succeeds (create_session_with_audit g s event) w tt w'
    → (db : Database) × (add_session s w.db ≡ ok db) × Recorded g (some event) db w'.db
unfolding create_session_with_audit
create_session_with_audit-Succeeds g s event w w' h =
    let (u, v, same, _, body, after, _) = transaction-Succeeds _ w tt w' h in
    let (_, x, inserted, recorded) = >>=-Succeeds _ _ u tt v body in
    let i = exec-Succeeds (add_session s) u x inserted in
    let r = insert_audit_event-Succeeds g event x v recorded in
    (
      x.db,
      subst (λ d. add_session s d ≡ ok x.db) same i.0,
      subst (Recorded g (some event) x.db) (sym after) r,
    )

-- What the tables have gained: one session of the user, and its event.
pub record Opened (g : Platform) (s : SessionService) (user : User) (token : Text × Text)
    (now : Time) (created : Created) (before after : Database) : Type 0 where
  pub session : Session
  pub made : new_session g token.1 user.id now s.absolute_lifetime ≡ ok session
  pub middle : Database
  pub added : add_session session before ≡ ok middle
  pub event : Event
  pub recorded : Recorded g (some event) middle after
  pub access_token : created.access_token ≡ token.0
  pub expires_at : created.expires_at ≡ session.expires_at

create_for-Succeeds :
    (g : Platform) (s : SessionService) (user : User) (token : Text × Text) (now : Time) (w : World)
    (created : Created) (w' : World)
    → Succeeds (create_for g s user token now) w created w'
    → Opened g s user token now created w.db w'.db
unfolding create_for
create_for-Succeeds g s user token now w created w' h =
    let (session, x, made, r1) = >>=-Succeeds _ _ w created w' h in
    let (event, y, built, r2) = >>=-Succeeds _ _ x created w' r1 in
    let (_, z, stored, returned) = >>=-Succeeds _ _ y created w' r2 in
    let (db, added, recorded) = create_session_with_audit-Succeeds g session event y z stored in
    let kept =
      new_actor_event-db g user EventType.session_created Outcome.success TargetType.session_target
        [] [] Reason.no_reason session.created_at x in
    let same : y.db ≡ w.db = sym (ap (λ p. p.1.db) built) ∙ kept ∙ sym (ap (λ p. p.1.db) made) in
    record {
      session = session;
      made = ap (λ p. p.0) made;
      middle = db;
      added = subst (λ d. add_session session d ≡ ok db) same added;
      event = event;
      recorded = subst (Recorded g (some event) db) (ap (λ p. p.1.db) returned) recorded;
      access_token = ground (arith, returned);
      expires_at = ground (arith, returned);
    }

-- What `Create` does with an error of the authenticator.
abbrev refused : Platform → Text → Time → Error → Action World Created
refused g username now e =
    if is invalid_credentials e then (record_denied_creation g username now >> fail e) else fail e

refused-err :
    (g : Platform) (username : Text) (now : Time) (e : Error) (w : World) (c : Created)
    → (refused g username now e w).0 ≢ ok c
unfolding ◌>>=◌
refused-err g username now e w c h = ground arith

-- A login that succeeds had a user that the authenticator accepts and a generated token; it stores one
-- session for that user under the hash of the token with its event, and returns the token and the
-- end of the session.
pub create_session-Succeeds :
    (g : Platform) (s : SessionService) (authenticator : Action World User)
    (generate : Action World (Text × Text)) (username : Text) (now : Time) (w : World)
    (created : Created) (w' : World)
    → Succeeds (create_session g s authenticator generate username now) w created w'
    → (user : User) × (token : Text × Text) × (v x : World) × Succeeds authenticator w user v
      × Succeeds generate v token x
      × Opened g s user token now created x.db w'.db
unfolding create_session
create_session-Succeeds g s authenticator generate username now w created w' h =
    let (user, v, accepted, r1) =
      catch-Succeeds authenticator (refused g username now) _ w created w'
        (λ e z. refused-err g username now e z created) h in
    let (token, x, generated, r2) = >>=-Succeeds _ _ v created w' r1 in
    (user, token, v, x, accepted, generated, create_for-Succeeds g s user token now x created w' r2)
