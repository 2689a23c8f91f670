-- ===== src/Services/Passwords/Replacement.antt =====
-- internal/application/passwords/change_service.go: what a successful `ChangePassword` has done.
use go_mediaarchive.Base.{
  ◌≡◌, ◌≢◌, refl, sym, ap, subst, ◌∙◌, Bool, Bool-cases, true, false, inl, inr, some, [], ◌∷◌,
  arith, find, if◌then◌else◌,
}
use go_mediaarchive.Go.Text.{Text, text_eq}
use go_mediaarchive.Go.Time.{Time}
use go_mediaarchive.Go.Failure.{ok, Error, invalid_current_password, password_unchanged}
use go_mediaarchive.Go.Action.{Action, lift, catch}
use go_mediaarchive.Identity.Username.{Platform}
use go_mediaarchive.Identity.User.{User}
use go_mediaarchive.Credential.{PasswordCredential, with_password_hash}
use go_mediaarchive.Audit.Kinds.{EventType, Outcome, TargetType, Reason}
use go_mediaarchive.Audit.{Event}
use go_mediaarchive.Store.Tables.{Database, World}
use go_mediaarchive.Store.Statements.Success.{Succeeds, >>=-Succeeds}
use go_mediaarchive.Store.Users.Effects.{Recorded}
use go_mediaarchive.Store.Credentials.Change.{PasswordChanged, change_password-Succeeds}
use go_mediaarchive.Services.Authentication.Verdicts.{find_credential-Succeeds}
use go_mediaarchive.Services.Events.Keeps.{append_and_fail-err, new_actor_event-db}
use go_mediaarchive.Services.Users.Changes.{catch-Succeeds}
use go_mediaarchive.Services.Passwords.{
  Hasher, validate_password, new_change_event, deny_change, replace_password, change_verified,
  change_own_password,
}

deny_change-err :
    (g : Platform) (actor : User) (r : Reason) (now : Time) (e : Error) (w : World)
    → (deny_change g actor r now e w).0 ≢ ok tt
unfolding deny_change
deny_change-err g actor r now e w h =
    append_and_fail-err g (new_change_event g actor Outcome.denied r now) e w tt h

change_event-db :
    (g : Platform) (actor : User) (now : Time) (w : World)
    → (new_change_event g actor Outcome.success Reason.no_reason now w).1.db ≡ w.db
unfolding new_change_event
change_event-db g actor now =
    new_actor_event-db g actor EventType.password_changed Outcome.success TargetType.user_target
      actor.id actor.username Reason.no_reason now

-- The new password is stored, and the sessions are ended.
abbrev pub Replaces :
    Platform → Hasher → Text → Time → PasswordCredential → Database → Database → Type 0
Replaces g h new now stored before after =
    (encoded : Text) × (updated : PasswordCredential) × (event : Event) × (db : Database) × (h.hash
        new
      ≡ ok encoded)
    × (with_password_hash stored encoded now ≡ ok updated)
    × PasswordChanged updated before db
    × Recorded g (some event) db after

replace_password-Succeeds :
    (g : Platform) (h : Hasher) (actor : User) (new : Text) (now : Time)
    (stored : PasswordCredential) (w w' : World)
    → Succeeds (replace_password g h actor new now stored) w tt w'
    → Replaces g h new now stored w.db w'.db
unfolding replace_password
replace_password-Succeeds g h actor new now stored w w' k =
    let (encoded, a, hashed, r1) = >>=-Succeeds _ _ w tt w' k in
    let (updated, b, made, r2) = >>=-Succeeds _ _ a tt w' r1 in
    let (event, c, noted, r3) = >>=-Succeeds _ _ b tt w' r2 in
    let (db, changed, recorded) = change_password-Succeeds g updated (some event) c w' r3 in
    let same : c.db ≡ w.db =
      ap (λ p. p.1.db) (sym noted)
      ∙ change_event-db g actor now b
      ∙ ap (λ p. p.1.db) (sym made)
      ∙ ap (λ p. p.1.db) (sym hashed) in
    (
      encoded,
      updated,
      event,
      db,
      ap (λ p. p.0) hashed,
      ap (λ p. p.0) made,
      subst (λ d. PasswordChanged updated d db) same changed,
      recorded,
    )

-- The last test of `ChangePassword`.
abbrev after_policy :
    Platform → Hasher → User → Text → Text → Time → PasswordCredential → Action World (Unit {0})
after_policy g h actor current new now stored =
    if text_eq current new
    then deny_change g actor Reason.resource_conflict now (password_unchanged ∷ [])
    else replace_password g h actor new now stored

after_policy-Succeeds :
    (g : Platform) (h : Hasher) (actor : User) (current new : Text) (now : Time)
    (stored : PasswordCredential) (w w' : World)
    → Succeeds (after_policy g h actor current new now stored) w tt w'
    → (text_eq current new ≡ false) × Succeeds (replace_password g h actor new now stored) w tt w'
after_policy-Succeeds g h actor current new now stored w w' k =
    elim (Bool-cases (text_eq current new)) [
      | inl q ↦ ground (
        arith,
        k,
        q,
        deny_change-err g actor Reason.resource_conflict now (password_unchanged ∷ []) w,
      )
      | inr q ↦ (q, ground (arith, k, q))
    ]

change_verified-steps :
    (g : Platform) (h : Hasher) (actor : User) (current new : Text) (now : Time)
    (stored : PasswordCredential) (matches : Bool) (w w' : World)
    → Succeeds (change_verified g h actor current new now stored matches) w tt w'
    → (matches ≡ true)
      × Succeeds
          (catch
            (lift (validate_password (h.runes new)))
            (λ e. deny_change g actor Reason.invalid_input now e)
            (λ _. after_policy g h actor current new now stored))
          w
          tt
          w'
unfolding change_verified
change_verified-steps g h actor current new now stored true w w' k = (refl, k)
change_verified-steps g h actor current new now stored false w w' k =
    elim (deny_change-err g actor Reason.bad_credentials now (invalid_current_password ∷ []) w
      (ap (λ p. p.0) k)) [ ]

-- A successful `ChangePassword` found the caller's credential, and the current password matches its hash.
-- The new one is another password that the policy accepts. Its hash is stored in that credential, every
-- session of the caller is ended, and one event is new.
pub change_own_password-Succeeds :
    (g : Platform) (h : Hasher) (actor : User) (current new : Text) (now : Time) (w w' : World)
    → Succeeds (change_own_password g h actor current new now) w tt w'
    → (stored : PasswordCredential) × (find (λ c. text_eq c.user_id actor.id) w.db.credentials
        ≡ some stored)
      × (h.verify current stored.password_hash ≡ ok true)
      × (validate_password (h.runes new) ≡ ok tt)
      × (text_eq current new ≡ false)
      × Replaces g h new now stored w.db w'.db
unfolding change_own_password
change_own_password-Succeeds g h actor current new now w w' k =
    let (stored, a, read, r1) = >>=-Succeeds _ _ w tt w' k in
    let (matches, b, compared, r2) = >>=-Succeeds _ _ a tt w' r1 in
    let (agreed, r3) = change_verified-steps g h actor current new now stored matches b w' r2 in
    let (_, x, valid, r4) =
      catch-Succeeds (lift (validate_password (h.runes new)))
        (λ e. deny_change g actor Reason.invalid_input now e)
        (λ _. after_policy g h actor current new now stored) b tt w'
        (λ e v. deny_change-err g actor Reason.invalid_input now e v) r3 in
    let (another, r5) = after_policy-Succeeds g h actor current new now stored x w' r4 in
    let (found, same) = find_credential-Succeeds actor.id w stored a read in
    let whole : x.db ≡ w.db =
      ap (λ p. p.1.db) (sym valid) ∙ ap (λ p. p.1.db) (sym compared) ∙ same in
    (
      stored,
      found,
      ap (λ p. p.0) compared ∙ ap ok agreed,
      ap (λ p. p.0) valid,
      another,
      subst (λ d. Replaces g h new now stored d w'.db) whole
          (replace_password-Succeeds g h actor new now stored x w' r5),
    )
