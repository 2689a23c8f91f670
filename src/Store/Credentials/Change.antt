-- ===== src/Store/Credentials/Change.antt =====
-- What a change of a password has done to the tables.
use go_mediaarchive.Base.{
  inl, inr, Bool-cases, ◌≡◌, refl, sym, subst, Bool, true, not, ◌&&◌, Option, some, List, [], ◌∷◌,
  arith, find, any, every, map,
}
use go_mediaarchive.Go.Text.{Text, text_eq}
use go_mediaarchive.Go.Time.{Time}
use go_mediaarchive.Go.Failure.{ok}
use go_mediaarchive.Identity.Username.{Platform}
use go_mediaarchive.Credential.{PasswordCredential}
use go_mediaarchive.Audit.{Event}
use go_mediaarchive.Store.Tables.{Database, World, SessionRow}
use go_mediaarchive.Store.Statements.Success.{
  Succeeds, >>=-Succeeds, exec-Succeeds, transaction-Succeeds,
}
use go_mediaarchive.Store.Users.Effects.{Recorded, insert_optional_event-Succeeds}
use go_mediaarchive.Store.Sessions.Rows.{is_open}
use go_mediaarchive.Store.Credentials.{
  changed_credential, change_credential, ended_row, end_sessions, change_password,
}

-- No session of the user is open.
abbrev pub is_ended : Text → SessionRow → Bool
is_ended user_id row = not (text_eq row.user_id user_id && is_open row)

ended-sessions :
    (user_id : Text) (now : Time) (rows : List SessionRow)
    → every (is_ended user_id) (map (ended_row user_id now) rows) ≡ true
ended-sessions user_id now [] = refl
ended-sessions user_id now (r ∷ rows) = ground (arith, ended-sessions user_id now rows)

-- The credential of the user, with the new hash and moment.
changed-find :
    (new : PasswordCredential) (rows : List PasswordCredential)
    → any (λ c. text_eq c.user_id new.user_id) rows ≡ true
    → (old : PasswordCredential) × (find (λ c. text_eq c.user_id new.user_id) rows ≡ some old)
      × (find (λ c. text_eq c.user_id new.user_id) (map (changed_credential new) rows)
          ≡ some (record old { password_hash = new.password_hash; updated_at = new.updated_at }))
changed-find new [] h = cc
changed-find new (r ∷ rows) h = elim (Bool-cases (text_eq r.user_id new.user_id)) [
  | inl e ↦ (r, ground (arith, e), ground (arith, e))
  | inr e ↦
      let (old, found, changed) = changed-find new rows (ground (arith, e)) in
      (old, ground (arith, e, found), ground (arith, e, changed))
]

-- A change that the repository accepts.
pub record PasswordChanged (new : PasswordCredential) (before after : Database) : Type 0 where
  pub old : PasswordCredential
  pub found : find (λ c. text_eq c.user_id new.user_id) before.credentials ≡ some old
  pub changed :
      find (λ c. text_eq c.user_id new.user_id) after.credentials
      ≡ some (record old { password_hash = new.password_hash; updated_at = new.updated_at })
  pub ended : every (is_ended new.user_id) after.sessions ≡ true
  pub sessions : after.sessions ≡ map (ended_row new.user_id new.updated_at) before.sessions
  pub users : after.users ≡ before.users
  pub enrollments : after.enrollments ≡ before.enrollments
  pub items : after.items ≡ before.items
  pub authors : after.authors ≡ before.authors
  pub contents : after.contents ≡ before.contents
  pub grants : after.grants ≡ before.grants

change_credential-ok :
    (new : PasswordCredential) (before middle : Database)
    → change_credential new before ≡ ok middle
    → (any (λ c. text_eq c.user_id new.user_id) before.credentials ≡ true)
      × (middle ≡ record before { credentials = map (changed_credential new) before.credentials })
unfolding change_credential
change_credential-ok new before middle h = ground arith

changes :
    (new : PasswordCredential) (before middle after : Database)
    → change_credential new before ≡ ok middle
    → ok (end_sessions new.user_id new.updated_at middle) ≡ ok after
    → PasswordChanged new before after
unfolding end_sessions
changes new before middle after h k =
    let (present, m) = change_credential-ok new before middle h in
    let (old, found, changed) = changed-find new before.credentials present in
    record {
      old = old;
      found = found;
      changed = ground (arith, changed, m);
      ended = ground (arith, ended-sessions new.user_id new.updated_at before.sessions, m);
      sessions = ground (arith, m);
      users = ground (arith, m);
      enrollments = ground (arith, m);
      items = ground (arith, m);
      authors = ground (arith, m);
      contents = ground (arith, m);
      grants = ground (arith, m);
    }

-- A successful change of a password found the credential of the user, stored the new hash and moment in
-- it, and left no open session of that user, nor reopened one; it changed no user, enrollment, item or
-- grant, and the event that it was given, if any, is the newest one.
pub change_password-Succeeds :
    (g : Platform) (new : PasswordCredential) (event : Option Event) (w w' : World)
    → Succeeds (change_password g new event) w tt w'
    → (db : Database) × PasswordChanged new w.db db × Recorded g event db w'.db
unfolding change_password
change_password-Succeeds g new event w w' h =
    let (u, v, same, _, body, after, _) = transaction-Succeeds _ w tt w' h in
    let (_, x, b1, r1) = >>=-Succeeds _ _ u tt v body in
    let a = exec-Succeeds (change_credential new) u x b1 in
    let (_, y, b2, r2) = >>=-Succeeds _ _ x tt v r1 in
    let b = exec-Succeeds (λ db. ok (end_sessions new.user_id new.updated_at db)) x y b2 in
    let r = insert_optional_event-Succeeds g event y v r2 in
    (
      y.db,
      subst (λ d. PasswordChanged new d y.db) same (changes new u.db x.db y.db a.0 b.0),
      subst (Recorded g event y.db) (sym after) r,
    )
