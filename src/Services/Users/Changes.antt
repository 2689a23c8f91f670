-- ===== src/Services/Users/Changes.antt =====
-- internal/application/users/service.go: what a successful change of a user has done.
use go_mediaarchive.Base.{
  Bool-cases, ◌≡◌, sym, subst, ap, ◌∙◌, ◌≢◌, Bool, true, false, not, ◌&&◌, inl, inr, some, [], ◌∷◌,
  arith, find, if◌then◌else◌,
}
use go_mediaarchive.Go.Text.{Text, text_eq}
use go_mediaarchive.Go.Time.{Time}
use go_mediaarchive.Go.Failure.{ok, Error, is, user_not_found, self_lockout, invalid_user_id}
use go_mediaarchive.Go.Action.{Action, catch, fail}
use go_mediaarchive.Identity.Username.{Platform, is_admin, canonical_uuid}
use go_mediaarchive.Identity.User.{User, update_details}
use go_mediaarchive.Audit.Kinds.{TargetType, EventType, Outcome, Reason}
use go_mediaarchive.Audit.{Event}
use go_mediaarchive.Store.Tables.{Database, World}
use go_mediaarchive.Store.Statements.Atomicity.{Result-cases}
use go_mediaarchive.Store.Statements.Success.{Succeeds, >>=-Succeeds}
use go_mediaarchive.Store.Users.{find_user_by_id}
use go_mediaarchive.Store.Users.Effects.{
  Recorded, Updated, find_user_by_id-Succeeds, update_preserving-Succeeds,
}
use go_mediaarchive.Services.Events.Keeps.{append_and_fail-err, catch-cases, new_actor_event-db}
use go_mediaarchive.Services.Users.{
  UserInput, record_denied_change, deny_or_fail, new_user_event, persist_updated, update_existing,
  with_user, safe_user_target, update_user_service,
}

pub record_denied_change-err :
    {A : Type 0} (g : Platform) (actor : User) (t : EventType) (target : User) (r : Reason)
    (now : Time) (e : Error) (w : World) (a : A)
    → (record_denied_change g actor t target r now e w).0 ≢ ok a
unfolding record_denied_change
record_denied_change-err g actor t target r now e w a h =
    append_and_fail-err g (new_user_event g actor target t Outcome.denied r now) e w a h

pub deny_or_fail-err :
    {A : Type 0} (g : Platform) (actor : User) (t : EventType) (target : User) (r : Reason)
    (now : Time) (e : Error) (w : World) (a : A)
    → (deny_or_fail g actor t target r now e w).0 ≢ ok a
unfolding deny_or_fail
deny_or_fail-err g actor t target r now e w a h =
    ground (arith, record_denied_change-err g actor t target r now e w a)

-- A handled call whose handler never succeeds succeeded itself.
pub catch-Succeeds :
    {A B : Type 0} (m : Action World A) (k : Error → Action World B) (f : A → Action World B)
    (w : World) (b : B) (w' : World)
    → ((e : Error) (v : World) → (k e v).0 ≢ ok b)
    → Succeeds (catch m k f) w b w'
    → (a : A) × (v : World) × Succeeds m w a v × Succeeds (f a) v b w'
catch-Succeeds m k f w b w' never h = elim (catch-cases m k f w) [
  | inl (e, v, failed, handled) ↦ elim (never e v (ap (λ p. p.0) (sym handled ∙ h))) [ ]
  | inr (a, v, done, went_on) ↦ (a, v, done, sym went_on ∙ h)
]

-- What the lookup does with an error.
abbrev lookup_failed : Platform → User → EventType → Text → Text → Time → Error → Action World User
lookup_failed g actor t id name now e =
    if is user_not_found e
    then record_denied_change g actor t (safe_user_target g id name) Reason.unknown_target now e
    else fail e

lookup_failed-err :
    (g : Platform) (actor : User) (t : EventType) (id name : Text) (now : Time) (e : Error)
    (w : World) (u : User)
    → (lookup_failed g actor t id name now e w).0 ≢ ok u
lookup_failed-err g actor t id name now e w u h = ground (
  arith,
  record_denied_change-err g actor t (safe_user_target g id name) Reason.unknown_target now e w u,
)

accepted :
    (g : Platform) (actor : User) (t : EventType) (id name : Text) (now : Time)
    (continue : User → Action World User) (w : World)
    → canonical_uuid g id ≡ true
    → with_user g actor t id name now continue w
      ≡ catch (find_user_by_id id) (lookup_failed g actor t id name now) continue w
unfolding with_user
accepted g actor t id name now continue w q = ground (arith, q)

refused :
    (g : Platform) (actor : User) (t : EventType) (id name : Text) (now : Time)
    (continue : User → Action World User) (w : World) (u : User) (w' : World)
    → canonical_uuid g id ≡ false
    → ((with_user g actor t id name now continue) w ≢ (ok u, w'))
unfolding with_user
refused g actor t id name now continue w u w' q k = ground (
  arith,
  record_denied_change-err g actor t (safe_user_target g id name) Reason.invalid_input now
      (invalid_user_id ∷ []) w u,
)

pub with_user-Succeeds :
    (g : Platform) (actor : User) (t : EventType) (id name : Text) (now : Time)
    (continue : User → Action World User) (w : World) (u : User) (w' : World)
    → Succeeds (with_user g actor t id name now continue) w u w'
    → (existing : User) × (v : World) × (canonical_uuid g id ≡ true)
      × (find (λ u. text_eq u.id id) w.db.users ≡ some existing)
      × (v.db ≡ w.db)
      × Succeeds (continue existing) v u w'
with_user-Succeeds g actor t id name now continue w u w' h =
    elim (Bool-cases (canonical_uuid g id)) [
      | inr q ↦ elim (refused g actor t id name now continue w u w' q h) [ ]
      | inl q ↦
          let (existing, v, found, went_on) =
            catch-Succeeds (find_user_by_id id) (lookup_failed g actor t id name now) continue w u
              w' (λ e z. lookup_failed-err g actor t id name now e z u)
              (sym (accepted g actor t id name now continue w q) ∙ h) in
          let f = find_user_by_id-Succeeds id w existing v found in
          (existing, v, q, f.0, f.1, went_on)
    ]

pub persist_updated-Succeeds :
    (g : Platform) (actor : User) (t : EventType) (existing updated : User) (now : Time) (w : World)
    (u : User) (w' : World)
    → Succeeds (persist_updated g actor t existing updated now) w u w'
    → (u ≡ updated)
      × ((event : Event) × (db : Database) × Updated updated w.db db
          × Recorded g (some event) db w'.db)
unfolding persist_updated new_user_event
persist_updated-Succeeds g actor t existing updated now w u w' h =
    let (event, v, made, rest) = >>=-Succeeds _ _ w u w' h in
    let (_, x, stored, returned) =
      catch-Succeeds _ _ _ v u w' (λ e z. deny_or_fail-err g actor t existing _ now e z u) rest in
    let (db, updates, records) = update_preserving-Succeeds g updated (some event) v x stored in
    let untouched : v.db ≡ w.db =
      sym (ap (λ p. p.1.db) made)
      ∙ new_actor_event-db g actor t Outcome.success TargetType.user_target updated.id
          updated.username Reason.no_reason updated.updated_at w in
    (
      ground (arith, returned),
      (
        event,
        db,
        subst (λ d. Updated updated d db) untouched updates,
        subst (Recorded g (some event) db) (ap (λ p. p.1.db) returned) records,
      ),
    )

-- The account that acts does not take its own administrator role away.
abbrev pub locks_out : User → User → User → Bool
locks_out actor existing updated =
    text_eq actor.id existing.id && is_admin existing.role && not (is_admin updated.role)

update_existing-steps :
    (g : Platform) (actor existing : User) (input : UserInput) (now : Time) (w : World) (u : User)
    → (update_existing g actor existing input now w).0 ≡ ok u
    → (updated : User) × (update_details g existing input.username input.display_name input.role now
        ≡ ok updated)
      × (locks_out actor existing updated ≡ false)
      × (update_existing g actor existing input now w
          ≡ persist_updated g actor EventType.user_updated existing updated now w)
unfolding update_existing
update_existing-steps g actor existing input now w u h =
    elim (Result-cases
      (update_details g existing input.username input.display_name input.role now)) [
        | inr (e, q) ↦ ground (
          arith,
          q,
          record_denied_change-err g actor EventType.user_updated existing Reason.invalid_input now
              e w u,
        )
        | inl (updated, q) ↦ (
          updated,
          q,
          ground (
            arith,
            q,
            record_denied_change-err g actor EventType.user_updated existing Reason.self_lockout now
                (self_lockout ∷ []) w u,
          ),
          ground (
            arith,
            q,
            record_denied_change-err g actor EventType.user_updated existing Reason.self_lockout now
                (self_lockout ∷ []) w u,
          ),
        )
      ]

-- A successful `UpdateUser` found the user under a canonical ID, returns the validated update of it,
-- which does not take the administrator role from the account that acts and not the last active
-- administrator from the archive; the tables change by the named columns of that row and by one
-- event row, and by nothing else.
pub update_user_service-Succeeds :
    (g : Platform) (actor : User) (id : Text) (input : UserInput) (now : Time) (w : World)
    (u : User) (w' : World)
    → Succeeds (update_user_service g actor id input now) w u w'
    → (existing : User) × (canonical_uuid g id ≡ true)
      × (find (λ u. text_eq u.id id) w.db.users ≡ some existing)
      × (update_details g existing input.username input.display_name input.role now ≡ ok u)
      × (locks_out actor existing u ≡ false)
      × ((event : Event) × (db : Database) × Updated u w.db db × Recorded g (some event) db w'.db)
unfolding update_user_service
update_user_service-Succeeds g actor id input now w u w' h =
    let (existing, v, canonical, found, same, rest) =
      with_user-Succeeds g actor EventType.user_updated id input.username now
        (λ existing. update_existing g actor existing input now) w u w' h in
    let (updated, valid, safe, stored) =
      update_existing-steps g actor existing input now v u (ap (λ p. p.0) rest) in
    let (returned, (event, db, changed, recorded)) =
      persist_updated-Succeeds g actor EventType.user_updated existing updated now v u w'
        (sym stored ∙ rest) in
    (
      existing,
      canonical,
      found,
      subst (λ x. update_details g existing input.username input.display_name input.role now ≡ ok x)
          (sym returned) valid,
      subst (λ x. locks_out actor existing x ≡ false) (sym returned) safe,
      (
        event,
        db,
        subst (λ d. Updated u d db) same (subst (λ x. Updated x v.db db) (sym returned) changed),
        recorded,
      ),
    )
