-- ===== src/Services/Sessions.antt =====
-- internal/application/sessions/service.go: the session service. A token is hashed by SHA-256, the
-- parameter `hash_token`; the authenticator is an action, and so is the generator of tokens.
pub mod Creation
pub mod Resolution
use go_mediaarchive.Base.{Bool, true, false, not, Option, none, some, List, [], ◌∷◌, if◌then◌else◌}
use go_mediaarchive.Go.Text.{Text}
use go_mediaarchive.Go.Time.{Time, Duration, to_utc}
use go_mediaarchive.Go.Failure.{
  Result, ok, err, Error, is, session_not_found, user_not_found, unauthenticated,
  invalid_credentials,
}
use go_mediaarchive.Go.Action.{Action, pure, fail, lift, catch, ◌>>=◌, ◌>>◌}
use go_mediaarchive.Identity.Username.{Platform, normalize_username}
use go_mediaarchive.Identity.User.{User}
use go_mediaarchive.Session.{Session, new_session, is_valid_at}
use go_mediaarchive.Audit.Kinds.{EventType, Outcome, TargetType, Reason}
use go_mediaarchive.Audit.{Event, new_event}
use go_mediaarchive.Store.Tables.{World}
use go_mediaarchive.Store.Events.{insert_audit_event}
use go_mediaarchive.Store.Users.{find_user_by_id}
use go_mediaarchive.Store.Sessions.{
  create_session_with_audit, find_by_token_hash, touch, revoke_with_audit,
}
use go_mediaarchive.Services.Events.{next_event_id, new_actor_event}

-- `Service`, less its collaborators
pub record SessionService : Type 0 where
  pub hash_token : Text → Text
  pub absolute_lifetime : Duration
  pub idle_timeout : Duration

-- `Created`
pub record Created : Type 0 where
  pub access_token : Text
  pub expires_at : Time

-- `recordDeniedCreation`
unfoldable pub record_denied_creation : Platform → Text → Time → Action World (Unit {0})
record_denied_creation g username now = do
  id ← next_event_id
  event ← lift (
      new_event g (record {
        id = id;
        occurred_at = to_utc now;
        type = EventType.session_create_denied;
        outcome = Outcome.denied;
        actor_id = [];
        actor_username = [];
        actor_role = none;
        target_type = TargetType.user_target;
        target_id = [];
        target_name = elim (normalize_username g username) [ ok n ↦ n | err _ ↦ [] ];
        reason = Reason.bad_credentials;
        range = none;
      }))
  insert_audit_event g event

-- `Create` from the authenticated user on.
unfoldable pub create_for :
    Platform → SessionService → User → Text × Text → Time → Action World Created
create_for g s user (access_token, token_hash) now = do
  created ← lift (new_session g token_hash user.id now s.absolute_lifetime)
  event ←
      new_actor_event g user EventType.session_created Outcome.success TargetType.session_target []
        [] Reason.no_reason created.created_at
  create_session_with_audit g created event
  pure (record { access_token = access_token; expires_at = created.expires_at })

-- `Create`
unfoldable pub create_session :
    Platform
    → SessionService
    → Action World User
    → Action World (Text × Text)
    → Text
    → Time
    → Action World Created
create_session g s authenticate generate username now =
    catch authenticate
      (λ e.
        if is invalid_credentials e
        then (record_denied_creation g username now >> fail e)
        else fail e)
      (λ user. generate >>= λ token. create_for g s user token now)

-- An error that means "none" becomes the generic failure; any other is returned.
unfoldable pub masked : {A : Type 0} → Bool → Error → Action World A
masked true e = fail (unauthenticated ∷ [])
masked false e = fail e

-- `Resolve` from the session and the user that it found.
unfoldable pub resolve_found : SessionService → Text → Time → Session → User → Action World User
resolve_found s token_hash now stored user =
    if not (is_valid_at stored (to_utc now) s.idle_timeout user.active)
    then fail (unauthenticated ∷ [])
    else catch (touch token_hash (to_utc now)) (λ e. masked (is session_not_found e) e)
        (λ _. pure user)

-- `Resolve`
unfoldable pub resolve : SessionService → Text → Time → Action World User
resolve s access_token now =
    catch (find_by_token_hash (s.hash_token access_token)) (λ e. masked (is session_not_found e) e)
      λ stored.
        catch (find_user_by_id stored.user_id) (λ e. masked (is user_not_found e) e)
          (resolve_found s (s.hash_token access_token) now stored)

-- `Revoke` of a session that it found.
unfoldable pub revoke_found : Platform → Text → Time → Session → Action World (Unit {0})
revoke_found g token_hash now stored = do
  user ← find_user_by_id stored.user_id
  event ←
      new_actor_event g user EventType.session_revoked Outcome.success TargetType.session_target []
        [] Reason.no_reason (to_utc now)
  _ ← revoke_with_audit g token_hash (to_utc now) event
  pure tt

-- `Revoke`
unfoldable pub revoke_session : Platform → SessionService → Text → Time → Action World (Unit {0})
revoke_session g s access_token now =
    catch (find_by_token_hash (s.hash_token access_token))
      (λ e. if is session_not_found e then pure tt else fail e)
      (revoke_found g (s.hash_token access_token) now)
