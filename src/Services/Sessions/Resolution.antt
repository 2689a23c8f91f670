-- ===== src/Services/Sessions/Resolution.antt =====
-- internal/application/sessions/service.go: who is authenticated by a token.
use go_mediaarchive.Base.{◌≡◌, sym, subst, ap, ◌∙◌, ◌≢◌, Bool, true, false, some, arith, find}
use go_mediaarchive.Go.Text.{Text, text_eq}
use go_mediaarchive.Go.Time.{Time, to_utc}
use go_mediaarchive.Go.Failure.{ok, Error, is, session_not_found, user_not_found}
use go_mediaarchive.Go.Action.{catch, pure}
use go_mediaarchive.Identity.User.{User}
use go_mediaarchive.Session.{Session, is_valid_at}
use go_mediaarchive.Store.Tables.{World}
use go_mediaarchive.Store.Statements.Success.{Succeeds, query-Succeeds, exec-Succeeds}
use go_mediaarchive.Store.Users.Effects.{find_user_by_id-Succeeds}
use go_mediaarchive.Store.Users.{find_user_by_id}
use go_mediaarchive.Store.Sessions.Rows.{stored_session, has_open_session, touch_rows}
use go_mediaarchive.Store.Sessions.{find_by_token_hash, touch}
use go_mediaarchive.Services.Sessions.{SessionService, masked, resolve_found, resolve}
use go_mediaarchive.Services.Users.Changes.{catch-Succeeds}

masked-err : {A : Type 0} (b : Bool) (e : Error) (w : World) (a : A) → (masked b e w).0 ≢ ok a
unfolding masked
masked-err true e w a h = cc
masked-err false e w a h = cc

find_by_token_hash-Succeeds :
    (hash : Text) (w : World) (s : Session) (w' : World)
    → Succeeds (find_by_token_hash hash) w s w'
    → (stored_session (find (λ r. text_eq r.token_hash hash) w.db.sessions) ≡ ok s) × (w'.db ≡ w.db)
unfolding find_by_token_hash
find_by_token_hash-Succeeds hash w s w' h =
    let q =
      query-Succeeds (λ db. stored_session (find (λ r. text_eq r.token_hash hash) db.sessions)) w s
        w' h in
    (q.0, q.1)

touch-Succeeds :
    (hash : Text) (now : Time) (w w' : World)
    → Succeeds (touch hash now) w tt w'
    → (has_open_session hash w.db ≡ true) × (w'.db.users ≡ w.db.users)
unfolding touch touch_rows
touch-Succeeds hash now w w' h =
    let t = exec-Succeeds (touch_rows hash (to_utc now)) w w' h in ground (arith, t)

resolve_found-steps :
    (s : SessionService) (hash : Text) (now : Time) (stored : Session) (user : User) (w : World)
    (u : User)
    → (resolve_found s hash now stored user w).0 ≡ ok u
    → (is_valid_at stored (to_utc now) s.idle_timeout user.active ≡ true)
      × (resolve_found s hash now stored user w
          ≡ catch
              (touch hash (to_utc now))
              (λ e. masked (is session_not_found e) e)
              (λ _. pure user)
              w)
unfolding resolve_found
resolve_found-steps s hash now stored user w u h = (ground arith, ground arith)

resolve_found-Succeeds :
    (s : SessionService) (hash : Text) (now : Time) (stored : Session) (user : User) (w : World)
    (u : User) (w' : World)
    → Succeeds (resolve_found s hash now stored user) w u w'
    → (u ≡ user)
      × (is_valid_at stored (to_utc now) s.idle_timeout user.active ≡ true)
      × (has_open_session hash w.db ≡ true)
resolve_found-Succeeds s hash now stored user w u w' h =
    let (valid, steps) = resolve_found-steps s hash now stored user w u (ap (λ p. p.0) h) in
    let (_, v, touched, returned) =
      catch-Succeeds (touch hash (to_utc now)) (λ e. masked (is session_not_found e) e)
        (λ _. pure user) w u w' (λ e z. masked-err (is session_not_found e) e z u)
        (sym steps ∙ h) in
    (ground (arith, returned), valid, (touch-Succeeds hash (to_utc now) w v touched).0)

-- A token that authenticates has the hash of a stored session, which is not revoked and valid at this
-- moment for the state that its user has now; the account that it authenticates is that user.
pub resolve-Succeeds :
    (s : SessionService) (token : Text) (now : Time) (w : World) (u : User) (w' : World)
    → Succeeds (resolve s token now) w u w'
    → (stored : Session) × (stored_session
          (find (λ r. text_eq r.token_hash (s.hash_token token)) w.db.sessions)
        ≡ ok stored)
      × (find (λ v. text_eq v.id stored.user_id) w.db.users ≡ some u)
      × (is_valid_at stored (to_utc now) s.idle_timeout u.active ≡ true)
      × (has_open_session (s.hash_token token) w.db ≡ true)
unfolding resolve
resolve-Succeeds s token now w u w' h =
    let hash = s.hash_token token in
    let (stored, v, found, rest) =
      catch-Succeeds (find_by_token_hash hash) (λ e. masked (is session_not_found e) e) _ w u w'
        (λ e z. masked-err (is session_not_found e) e z u) h in
    let (user, x, known, rest2) =
      catch-Succeeds (find_user_by_id stored.user_id) (λ e. masked (is user_not_found e) e)
        (resolve_found s hash now stored) v u w' (λ e z. masked-err (is user_not_found e) e z u)
        rest in
    let f = find_by_token_hash-Succeeds hash w stored v found in
    let k = find_user_by_id-Succeeds stored.user_id v user x known in
    let (same, valid, opened) = resolve_found-Succeeds s hash now stored user x u w' rest2 in
    (
      stored,
      f.0,
      ground (arith, k.0, f.1, same),
      subst (λ a. is_valid_at stored (to_utc now) s.idle_timeout a.active ≡ true) (sym same) valid,
      ground (arith, opened, k.1, f.1),
    )
