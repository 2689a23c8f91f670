-- ===== src/Services/Passwords/Changes.antt =====
-- internal/application/passwords: what a completed enrollment and a changed password have done.
use go_mediaarchive.Base.{
  ◌≡◌, ◌≢◌, sym, ap, subst, ◌∙◌, Bool, Bool-cases, true, false, ◌||◌, inl, inr, some, [], ◌∷◌,
  arith, find,
}
use go_mediaarchive.Go.Text.{Text, text_eq}
use go_mediaarchive.Go.Time.{Time}
use go_mediaarchive.Go.Failure.{
  ok, Error, is, enrollment_not_found, credential_exists, invalid_enrollment,
}
use go_mediaarchive.Go.Action.{lift, pure, catch}
use go_mediaarchive.Identity.Username.{Platform}
use go_mediaarchive.Identity.User.{User}
use go_mediaarchive.Credential.{
  PasswordCredential, PasswordEnrollment, new_password_credential, enrollment_valid_at,
}
use go_mediaarchive.Audit.Kinds.{EventType, Outcome, TargetType, Reason}
use go_mediaarchive.Audit.{Event}
use go_mediaarchive.Store.Tables.{Database, World}
use go_mediaarchive.Store.Statements.Success.{Succeeds, >>=-Succeeds}
use go_mediaarchive.Store.Users.Effects.{Recorded, find_user_by_id-Succeeds}
use go_mediaarchive.Store.Enrollments.{find_enrollment, consume_enrollment}
use go_mediaarchive.Store.Enrollments.Consumption.{
  Consumed, find_enrollment-Succeeds, consume_enrollment-Succeeds,
}
use go_mediaarchive.Services.Events.Keeps.{append_and_fail-err, new_actor_event-db}
use go_mediaarchive.Services.Users.Changes.{catch-Succeeds}
use go_mediaarchive.Services.Passwords.{
  Hasher, validate_password, user_of, safe_enrollment_target, new_completion_event, deny_completion,
  deny_enrollment, enroll, complete_found, complete_enrollment,
}

deny_completion-err :
    (g : Platform) (target : User) (r : Reason) (now : Time) (e : Error) (w : World)
    → (deny_completion g target r now e w).0 ≢ ok tt
unfolding deny_completion
deny_completion-err g target r now e w h =
    append_and_fail-err g (new_completion_event g target Outcome.denied r now) e w tt h

deny_enrollment-err :
    (g : Platform) (target : User) (now : Time) (b : Bool) (e : Error) (w : World)
    → (deny_enrollment g target now b e w).0 ≢ ok tt
unfolding deny_enrollment
deny_enrollment-err g target now true e w h =
    deny_completion-err g target Reason.invalid_enrollment now (invalid_enrollment ∷ []) w h
deny_enrollment-err g target now false e w h = cc

-- The first password of a user, stored by the token that was given for it.
pub record Enrolled (g : Platform) (h : Hasher) (token password : Text) (now : Time)
    (enrollment : PasswordEnrollment) (before after : Database) : Type 0 where
  pub encoded : Text
  pub credential : PasswordCredential
  pub event : Event
  pub rows : Database
  pub hashed : h.hash password ≡ ok encoded
  pub made : new_password_credential g enrollment.user_id encoded now ≡ ok credential
  pub consumed : Consumed (h.hash_token token) credential now before rows
  pub recorded : Recorded g (some event) rows after

completion_event-db :
    (g : Platform) (user : User) (now : Time) (w : World)
    → (new_completion_event g user Outcome.success Reason.no_reason now w).1.db ≡ w.db
unfolding new_completion_event
completion_event-db g user now =
    new_actor_event-db g (user_of []) EventType.password_enrollment_completed Outcome.success
      TargetType.user_target user.id user.username Reason.no_reason now

enroll-Succeeds :
    (g : Platform) (h : Hasher) (token password : Text) (now : Time)
    (enrollment : PasswordEnrollment) (w w' : World)
    → Succeeds (enroll g h token password now enrollment) w tt w'
    → Enrolled g h token password now enrollment w.db w'.db
unfolding enroll
enroll-Succeeds g h token password now enrollment w w' k =
    let (encoded, a, hashed, r1) = >>=-Succeeds _ _ w tt w' k in
    let (c, b, made, r2) = >>=-Succeeds _ _ a tt w' r1 in
    let (user, x, read, r3) = >>=-Succeeds _ _ b tt w' r2 in
    let (event, y, noted, r4) = >>=-Succeeds _ _ x tt w' r3 in
    let (_, z, done, returned) =
      catch-Succeeds (consume_enrollment g (h.hash_token token) c now (some event))
        (λ e. deny_enrollment g user now (is enrollment_not_found e || is credential_exists e) e)
        (λ _. pure tt) y tt w'
        (λ e v.
          deny_enrollment-err g user now (is enrollment_not_found e || is credential_exists e) e v)
        r4 in
    let (_, kept, _) = find_user_by_id-Succeeds enrollment.user_id b user x read in
    let (db, consumed, recorded) =
      consume_enrollment-Succeeds g (h.hash_token token) c now (some event) y z done in
    let same : y.db ≡ w.db =
      ap (λ p. p.1.db) (sym noted)
      ∙ completion_event-db g user now x
      ∙ kept
      ∙ ap (λ p. p.1.db) (sym made)
      ∙ ap (λ p. p.1.db) (sym hashed) in
    record {
      encoded = encoded;
      credential = c;
      event = event;
      rows = db;
      hashed = ap (λ p. p.0) hashed;
      made = ap (λ p. p.0) made;
      consumed = subst (λ d. Consumed (h.hash_token token) c now d db) same consumed;
      recorded = subst (Recorded g (some event) db) (ap (λ p. p.1.db) returned) recorded;
    }

complete_found-Succeeds :
    (g : Platform) (h : Hasher) (token password : Text) (now : Time)
    (enrollment : PasswordEnrollment) (w w' : World)
    → Succeeds (complete_found g h token password now enrollment) w tt w'
    → (enrollment_valid_at enrollment now ≡ true)
      × (validate_password (h.runes password) ≡ ok tt)
      × Enrolled g h token password now enrollment w.db w'.db
unfolding complete_found
complete_found-Succeeds g h token password now enrollment w w' k =
    elim (Bool-cases (enrollment_valid_at enrollment now)) [
      | inr q ↦ ground (
        arith,
        k,
        q,
        deny_completion-err g (safe_enrollment_target g enrollment.user_id)
            Reason.invalid_enrollment now (invalid_enrollment ∷ []) w,
      )
      | inl q ↦
          let (_, x, valid, rest) =
            catch-Succeeds (lift (validate_password (h.runes password)))
              (λ e.
                deny_completion g (safe_enrollment_target g enrollment.user_id) Reason.invalid_input
                  now e)
              (λ _. enroll g h token password now enrollment) w tt w'
              (λ e v.
                deny_completion-err g (safe_enrollment_target g enrollment.user_id)
                  Reason.invalid_input now e v)
              (accepted q) in
          (
            q,
            ap (λ p. p.0) valid,
            subst (λ d. Enrolled g h token password now enrollment d w'.db)
                (ap (λ p. p.1.db) (sym valid))
                (enroll-Succeeds g h token password now enrollment x w' rest),
          )
    ]
  where
    accepted :
        enrollment_valid_at enrollment now ≡ true
        → Succeeds
            (catch
              (lift (validate_password (h.runes password)))
              (λ e.
                deny_completion g
                  (safe_enrollment_target g enrollment.user_id)
                  Reason.invalid_input
                  now
                  e)
              (λ _. enroll g h token password now enrollment))
            w
            tt
            w'
    accepted q = ground (arith, k, q)

-- A completed enrollment was given a token whose stored enrollment is valid at that time, and a password
-- that the policy accepts. The user of the enrollment had no credential; the tables change by the
-- credential of that user with the hash of the password, by the removal of the enrollment and by one
-- event.
pub complete_enrollment-Succeeds :
    (g : Platform) (h : Hasher) (token password : Text) (now : Time) (w w' : World)
    → Succeeds (complete_enrollment g h token password now) w tt w'
    → (enrollment : PasswordEnrollment) × (find
          (λ r. text_eq r.token_hash (h.hash_token token))
          w.db.enrollments
        ≡ some enrollment)
      × (enrollment_valid_at enrollment now ≡ true)
      × (validate_password (h.runes password) ≡ ok tt)
      × Enrolled g h token password now enrollment w.db w'.db
unfolding complete_enrollment
complete_enrollment-Succeeds g h token password now w w' k =
    let (enrollment, x, read, rest) =
      catch-Succeeds (find_enrollment (h.hash_token token))
        (λ e. deny_enrollment g (user_of []) now (is enrollment_not_found e) e)
        (complete_found g h token password now) w tt w'
        (λ e v. deny_enrollment-err g (user_of []) now (is enrollment_not_found e) e v) k in
    let (found, same) = find_enrollment-Succeeds (h.hash_token token) w enrollment x read in
    let (valid, accepted, enrolled) =
      complete_found-Succeeds g h token password now enrollment x w' rest in
    (
      enrollment,
      found,
      valid,
      accepted,
      subst (λ d. Enrolled g h token password now enrollment d w'.db) same enrolled,
    )
