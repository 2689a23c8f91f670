-- ===== src/Store/Enrollments/Finality.antt =====
-- An account gets its first password once.
use go_mediaarchive.Base.{
  ◌≡◌, ◌≢◌, refl, sym, ap, subst, ◌∙◌, true, false, Option, none, some, List, [], ◌∷◌, arith, any,
  map,
}
use go_mediaarchive.Go.Text.{Text, text_eq, text_eq_refl}
use go_mediaarchive.Go.Time.{Time}
use go_mediaarchive.Go.Failure.{ok}
use go_mediaarchive.Identity.Username.{Platform}
use go_mediaarchive.Credential.{PasswordCredential, PasswordEnrollment}
use go_mediaarchive.Audit.{Event}
use go_mediaarchive.Store.Tables.{Database, World}
use go_mediaarchive.Store.Events.{add_event}
use go_mediaarchive.Store.Statements.Success.{
  Succeeds, >>=-Succeeds, query-Succeeds, exec-Succeeds, transaction-Succeeds, transaction-keeps,
}
use go_mediaarchive.Store.Users.Effects.{Recorded, insert_optional_event-Succeeds}
use go_mediaarchive.Store.Credentials.{
  changed_credential, change_credential, end_sessions, change_password,
}
use go_mediaarchive.Store.Enrollments.{
  has_credential, require_user, refuse_credential, put_enrollment, save_enrollment,
  consume_enrollment,
}
use go_mediaarchive.Store.Enrollments.Consumption.{consume_enrollment-Succeeds}

-- The user has a credential.
abbrev pub IsEnrolled : Text → Database → Type 0
IsEnrolled id db = has_credential id db ≡ true

refuse_credential-ok :
    (id : Text) (db : Database) → refuse_credential id db ≡ ok tt → has_credential id db ≡ false
unfolding refuse_credential
refuse_credential-ok id db h = ground arith

Recorded-credentials :
    (g : Platform) (e : Option Event) (before after : Database)
    → Recorded g e before after
    → after.credentials ≡ before.credentials
unfolding add_event
Recorded-credentials g none before after h = ap (λ d. d.credentials) h
Recorded-credentials g (some e) before after (_, h) = ground arith

put_enrollment-credentials :
    (e : PasswordEnrollment) (before after : Database)
    → put_enrollment e before ≡ ok after
    → after.credentials ≡ before.credentials
unfolding put_enrollment
put_enrollment-credentials e before after h = ground arith

-- An enrollment that is saved is for a stored user without a credential.
pub save_enrollment-Succeeds :
    (g : Platform) (e : PasswordEnrollment) (event : Option Event) (w w' : World)
    → Succeeds (save_enrollment g e event) w tt w'
    → (has_credential e.user_id w.db ≡ false)
      × ((db : Database) × (put_enrollment e w.db ≡ ok db) × Recorded g event db w'.db)
unfolding save_enrollment
save_enrollment-Succeeds g e event w w' h =
    let (u, v, same, _, body, after, _) = transaction-Succeeds _ w tt w' h in
    let (_, a, known, r1) = >>=-Succeeds _ _ u tt v body in
    let (_, b, free, r2) = >>=-Succeeds _ _ a tt v r1 in
    let (_, c, put, recorded) = >>=-Succeeds _ _ b tt v r2 in
    let (_, d1, _) = query-Succeeds (require_user e.user_id) u tt a known in
    let (without, d2, _) = query-Succeeds (refuse_credential e.user_id) a tt b free in
    let p = (exec-Succeeds (put_enrollment e) b c put).0 in
    (
      subst (λ d. has_credential e.user_id d ≡ false) (d1 ∙ same)
          (refuse_credential-ok e.user_id a.db without),
      (
        c.db,
        subst (λ d. put_enrollment e d ≡ ok c.db) (d2 ∙ d1 ∙ same) p,
        subst (Recorded g event c.db) (sym after)
            (insert_optional_event-Succeeds g event c v recorded),
      ),
    )

save_enrollment-IsEnrolled :
    (id : Text) (g : Platform) (e : PasswordEnrollment) (event : Option Event) (w : World)
    → IsEnrolled id w.db
    → IsEnrolled id (save_enrollment g e event w).1.db
unfolding save_enrollment
save_enrollment-IsEnrolled id g e event w h = transaction-keeps (IsEnrolled id) _ w h λ _ w' done.
    let (_, (db, put, recorded)) = save_enrollment-Succeeds g e event w w' done in
    let same : w'.db.credentials ≡ w.db.credentials =
      Recorded-credentials g event db w'.db recorded ∙ put_enrollment-credentials e w.db db put in
    ap (any (λ c. text_eq c.user_id id)) same ∙ h

consume_enrollment-IsEnrolled :
    (id : Text) (g : Platform) (hash : Text) (c : PasswordCredential) (now : Time)
    (event : Option Event) (w : World)
    → IsEnrolled id w.db
    → IsEnrolled id (consume_enrollment g hash c now event w).1.db
unfolding consume_enrollment
consume_enrollment-IsEnrolled id g hash c now event w h =
    transaction-keeps (IsEnrolled id) _ w h λ _ w' done.
      let (db, consumed, recorded) = consume_enrollment-Succeeds g hash c now event w w' done in
      let same : w'.db.credentials ≡ c ∷ w.db.credentials =
        Recorded-credentials g event db w'.db recorded ∙ ap (λ d. d.credentials) consumed.changed in
      ground (arith, same, h)

changed-IsEnrolled :
    (id : Text) (new : PasswordCredential) (rows : List PasswordCredential)
    → any (λ c. text_eq c.user_id id) (map (changed_credential new) rows)
      ≡ any (λ c. text_eq c.user_id id) rows
changed-IsEnrolled id new [] = refl
changed-IsEnrolled id new (r ∷ rows) = ground (arith, changed-IsEnrolled id new rows)

changed_rows :
    (new : PasswordCredential) (before middle after : Database)
    → change_credential new before ≡ ok middle
    → ok (end_sessions new.user_id new.updated_at middle) ≡ ok after
    → after.credentials ≡ map (changed_credential new) before.credentials
unfolding change_credential end_sessions
changed_rows new before middle after h k = ground arith

change_password-IsEnrolled :
    (id : Text) (g : Platform) (new : PasswordCredential) (event : Option Event) (w : World)
    → IsEnrolled id w.db
    → IsEnrolled id (change_password g new event w).1.db
unfolding change_password
change_password-IsEnrolled id g new event w h = transaction-keeps (IsEnrolled id) _ w h λ _ w' done.
    let (u, v, same, _, body, after, _) = transaction-Succeeds _ w tt w' done in
    let (_, x, b1, r1) = >>=-Succeeds _ _ u tt v body in
    let (_, y, b2, r2) = >>=-Succeeds _ _ x tt v r1 in
    let a = (exec-Succeeds (change_credential new) u x b1).0 in
    let b = (exec-Succeeds (λ db. ok (end_sessions new.user_id new.updated_at db)) x y b2).0 in
    let r = insert_optional_event-Succeeds g event y v r2 in
    let rows : w'.db.credentials ≡ map (changed_credential new) w.db.credentials =
      ap (λ d. d.credentials) after
      ∙ Recorded-credentials g event y.db v.db r
      ∙ changed_rows new u.db x.db y.db a b
      ∙ ap (λ d. map (changed_credential new) d.credentials) same in
    ap (any (λ c. text_eq c.user_id id)) rows ∙ changed-IsEnrolled id new w.db.credentials ∙ h

-- The calls of the repositories of enrollments and credentials that change their tables.
pub data PasswordCall : Type 0 where
  saves : PasswordEnrollment → Option Event → PasswordCall
  consumes : Text → PasswordCredential → Time → Option Event → PasswordCall
  changes : PasswordCredential → Option Event → PasswordCall

unfoldable pub password_history : Platform → List PasswordCall → World → World
password_history g [] w = w
password_history g (saves e event ∷ cs) w = password_history g cs (save_enrollment g e event w).1
password_history g (consumes hash c now event ∷ cs) w =
    password_history g cs (consume_enrollment g hash c now event w).1
password_history g (changes c event ∷ cs) w = password_history g cs (change_password g c event w).1

password_history-IsEnrolled :
    (id : Text) (g : Platform) (cs : List PasswordCall) (w : World)
    → IsEnrolled id w.db
    → IsEnrolled id (password_history g cs w).db
unfolding password_history
password_history-IsEnrolled id g [] w h = h
password_history-IsEnrolled id g (saves e event ∷ cs) w h =
    password_history-IsEnrolled id g cs _ (save_enrollment-IsEnrolled id g e event w h)
password_history-IsEnrolled id g (consumes hash c now event ∷ cs) w h =
    password_history-IsEnrolled id g cs _ (consume_enrollment-IsEnrolled id g hash c now event w h)
password_history-IsEnrolled id g (changes c event ∷ cs) w h =
    password_history-IsEnrolled id g cs _ (change_password-IsEnrolled id g c event w h)

enrolled :
    (g : Platform) (hash : Text) (c : PasswordCredential) (now : Time) (event : Option Event)
    (w w' : World)
    → Succeeds (consume_enrollment g hash c now event) w tt w'
    → IsEnrolled c.user_id w'.db
enrolled g hash c now event w w' h =
    let (db, consumed, recorded) = consume_enrollment-Succeeds g hash c now event w w' h in
    let same : w'.db.credentials ≡ c ∷ w.db.credentials =
      Recorded-credentials g event db w'.db recorded ∙ ap (λ d. d.credentials) consumed.changed in
    ground (arith, same, text_eq_refl c.user_id)

-- Once a token has given a user the first password, no token does so again, and no new token is saved
-- for that user: not after any sequence of calls of the repositories of enrollments and credentials,
-- with driver failures at any statement.
pub password_history-once :
    (g : Platform) (hash : Text) (c : PasswordCredential) (now : Time) (event : Option Event)
    (w w' : World)
    → Succeeds (consume_enrollment g hash c now event) w tt w'
    → (cs : List PasswordCall) (token : Text) (d : PasswordCredential) (later : Time)
      (n : PasswordEnrollment) (e : Option Event)
    → d.user_id ≡ c.user_id
    → n.user_id ≡ c.user_id
    → ((consume_enrollment g token d later e (password_history g cs w')).0 ≢ ok tt)
      × ((save_enrollment g n e (password_history g cs w')).0 ≢ ok tt)
password_history-once g hash c now event w w' h cs token d later n e same_user for_user =
    let v = password_history g cs w' in
    let kept = password_history-IsEnrolled c.user_id g cs w' (enrolled g hash c now event w w' h) in
    let refused = λ (i : Text) (q : i ≡ c.user_id). ap (λ x. has_credential x v.db) q ∙ kept in
    (
      λ done.
          let (_, consumed, _) =
            consume_enrollment-Succeeds g token d later e v
              (consume_enrollment g token d later e v).1
              (ap (λ r. (r, (consume_enrollment g token d later e v).1)) done) in
          ground (arith, refused d.user_id same_user, consumed.first),
      λ done.
          let (without, _) =
            save_enrollment-Succeeds g n e v (save_enrollment g n e v).1
              (ap (λ r. (r, (save_enrollment g n e v).1)) done) in
          ground (arith, refused n.user_id for_user, without),
    )
