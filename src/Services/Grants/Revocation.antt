-- ===== src/Services/Grants/Revocation.antt =====
-- internal/application/media/grants.go: what a successful `RevokeGrant` has done.
use go_mediaarchive.Base.{
  ◌≡◌, sym, ap, subst, ◌∙◌, Bool-cases, true, false, inl, inr, some, [], ◌∷◌, arith,
}
use go_mediaarchive.Go.Text.{Text, text_eq}
use go_mediaarchive.Go.Time.{Time}
use go_mediaarchive.Go.Failure.{
  ok, is, media_not_found, grant_not_found, owner_grant, invalid_user_id,
}
use go_mediaarchive.Go.Action.{pure}
use go_mediaarchive.Identity.Username.{Platform, canonical_uuid}
use go_mediaarchive.Identity.User.{User}
use go_mediaarchive.Media.Permission.{share}
use go_mediaarchive.Media.Grant.{Item}
use go_mediaarchive.Audit.Kinds.{EventType, Outcome, Reason}
use go_mediaarchive.Audit.{Event}
use go_mediaarchive.Store.Tables.{Database, World}
use go_mediaarchive.Store.Statements.Success.{Succeeds, >>=-Succeeds}
use go_mediaarchive.Store.Users.Effects.{Recorded}
use go_mediaarchive.Store.Grants.{remove_grant, delete_grant}
use go_mediaarchive.Store.Items.Reading.{Stored}
use go_mediaarchive.Services.Users.Changes.{catch-Succeeds}
use go_mediaarchive.Services.Media.Access.{MayUse, authorize_item-Succeeds}
use go_mediaarchive.Services.Grants.{
  grant_target_id, shared_item, revoke_stored, revoke_shared, revoke_grant,
}
use go_mediaarchive.Services.Grants.Changes.{
  record_grant_event-err, deny_grant-err, new_grant_event-db, delete_grant-Succeeds,
}

-- What `RevokeGrant` has done once the item is known.
abbrev pub Revoked : Platform → Text → Text → Database → Database → Type 0
Revoked g media_id user_id before after =
    (event : Event) × (db : Database) × (remove_grant media_id user_id before ≡ ok db)
    × Recorded g (some event) db after

revoke_shared-steps :
    (g : Platform) (actor : User) (media_id user_id : Text) (now : Time) (item : Item)
    (w w' : World)
    → Succeeds (revoke_shared g actor media_id user_id now item) w tt w'
    → (text_eq user_id item.owner_id ≡ false)
      × (canonical_uuid g user_id ≡ true)
      × Succeeds (revoke_stored g actor media_id user_id now) w tt w'
unfolding revoke_shared
revoke_shared-steps g actor media_id user_id now item w w' h =
    let a =
      record_grant_event-err g actor EventType.media_grant_revoked
        (grant_target_id media_id user_id) Reason.resource_conflict now (owner_grant ∷ []) w tt in
    let b =
      record_grant_event-err g actor EventType.media_grant_revoked [] Reason.invalid_input now
        (invalid_user_id ∷ []) w tt in
    elim (Bool-cases (text_eq user_id item.owner_id)) [
      | inl q ↦ ground (arith, h, q, a)
      | inr q ↦ elim (Bool-cases (canonical_uuid g user_id)) [
        | inr c ↦ ground (arith, h, q, c, b)
        | inl c ↦ (q, c, ground (arith, h, q, c))
      ]
    ]

revoke_stored-Succeeds :
    (g : Platform) (actor : User) (media_id user_id : Text) (now : Time) (w w' : World)
    → Succeeds (revoke_stored g actor media_id user_id now) w tt w'
    → Revoked g media_id user_id w.db w'.db
unfolding revoke_stored
revoke_stored-Succeeds g actor media_id user_id now w w' h =
    let (event, v, made, rest) = >>=-Succeeds _ _ w tt w' h in
    let (_, x, deleted, returned) =
      catch-Succeeds (delete_grant g media_id user_id (some event)) _ (λ _. pure tt) v tt w'
        (λ e z.
          deny_grant-err g actor EventType.media_grant_revoked (grant_target_id media_id user_id)
            now (is grant_not_found e) e z tt)
        rest in
    let (db, removed, recorded) = delete_grant-Succeeds g media_id user_id event v x deleted in
    let same : v.db ≡ w.db =
      sym (ap (λ p. p.1.db) made)
      ∙ new_grant_event-db g actor EventType.media_grant_revoked (grant_target_id media_id user_id)
          Outcome.success Reason.no_reason now w in
    (
      event,
      db,
      subst (λ d. remove_grant media_id user_id d ≡ ok db) same removed,
      subst (Recorded g (some event) db) (ap (λ p. p.1.db) returned) recorded,
    )

-- A successful `RevokeGrant` came from an active user who owns the stored item or has a grant to share
-- it, for a canonical user ID that is not the owner's. It removed the grant, which was stored, and
-- changed the tables otherwise by one event.
pub revoke_grant-Succeeds :
    (g : Platform) (actor : User) (media_id user_id : Text) (now : Time) (w w' : World)
    → Succeeds (revoke_grant g actor media_id user_id now) w tt w'
    → (item : Item) × Stored g media_id w.db item
      × (actor.active ≡ true)
      × MayUse actor item share w.db
      × (text_eq user_id item.owner_id ≡ false)
      × (canonical_uuid g user_id ≡ true)
      × Revoked g media_id user_id w.db w'.db
unfolding revoke_grant shared_item
revoke_grant-Succeeds g actor media_id user_id now w w' h =
    let (item, x, read, rest) =
      catch-Succeeds (shared_item g actor media_id) _ (revoke_shared g actor media_id user_id now) w
        tt w'
        (λ e z.
          deny_grant-err g actor EventType.media_grant_revoked [] now (is media_not_found e) e z tt)
        h in
    let (stored, active, may, same) =
      authorize_item-Succeeds g actor media_id share w item x read in
    let (another, canonical, removes) =
      revoke_shared-steps g actor media_id user_id now item x w' rest in
    (
      item,
      stored,
      active,
      may,
      another,
      canonical,
      subst (λ d. Revoked g media_id user_id d w'.db) same
          (revoke_stored-Succeeds g actor media_id user_id now x w' removes),
    )
