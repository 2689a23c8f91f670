-- ===== src/Services/Bootstrap.antt =====
-- internal/storage/sqlite/admin_bootstrap.go, and internal/application/bootstrap/service.go over it: the
-- first administrator.
use go_mediaarchive.Base.{◌≡◌, ◌≢◌, refl, sym, ap, subst, ◌∙◌, true, List, [], ◌∷◌, arith, All}
use go_mediaarchive.Go.Text.{Text}
use go_mediaarchive.Go.Time.{Time}
use go_mediaarchive.Go.Failure.{Result, ok, err, already_bootstrapped}
use go_mediaarchive.Go.Action.{Action, pure, lift, ◌>>=◌, ◌>>◌}
use go_mediaarchive.Identity.Username.{Platform, admin}
use go_mediaarchive.Identity.User.{User, new_user}
use go_mediaarchive.Identity.User.Laws.{new_user-IsUser}
use go_mediaarchive.Credential.{PasswordCredential, new_password_credential}
use go_mediaarchive.Store.Tables.{Database, World}
use go_mediaarchive.Store.Statements.{query, exec, transaction}
use go_mediaarchive.Store.Statements.Success.{
  Succeeds, >>=-Succeeds, query-Succeeds, exec-Succeeds, transaction-Succeeds,
}
use go_mediaarchive.Store.Users.Rows.{add_user}
use go_mediaarchive.Store.Users.Administrators.{IsUnique}
use go_mediaarchive.Store.Users.Integrity.{
  IsAdministered, UserCall, IsWellMade, history, history-IsAdministered,
}
use go_mediaarchive.Store.Enrollments.{add_credential}
use go_mediaarchive.Services.Passwords.{Hasher, validate_password}

-- `SELECT EXISTS (SELECT 1 FROM users)`, and the test on it.
unfoldable pub require_no_user : Database → Result (Unit {0})
require_no_user db = elim db.users [ [] ↦ ok tt | _ ∷ _ ↦ err (already_bootstrapped ∷ []) ]

-- `AdminBootstrapRepository.BootstrapAdmin`
unfoldable pub store_administrator : User → PasswordCredential → Action World (Unit {0})
store_administrator user credential =
    transaction (do query require_no_user; exec (add_user user); exec (add_credential credential))

-- `Service.BootstrapAdmin`, with a generated ID
unfoldable pub bootstrap_admin :
    Platform → Hasher → Text → Text → Text → Text → Time → Action World User
bootstrap_admin g h id username display_name password now = do
  user ← lift (new_user g id username display_name admin now)
  lift (validate_password (h.runes password))
  encoded ← lift (h.hash password)
  credential ← lift (new_password_credential g user.id encoded now)
  store_administrator user credential
  pure user

require_no_user-ok : (db : Database) → require_no_user db ≡ ok tt → db.users ≡ []
unfolding require_no_user
require_no_user-ok db h = none_there db.users h
  where
    none_there :
        (us : List User)
        → elim us as (λ _. Result (Unit {0})) [
          | [] ↦ ok tt
          | _ ∷ _ ↦ err (already_bootstrapped ∷ [])
        ]
          ≡ ok tt
        → us ≡ []
    none_there [] k = refl
    none_there (u ∷ us) k = cc

added :
    (user : User) (c : PasswordCredential) (before middle after : Database)
    → add_user user before ≡ ok middle
    → add_credential c middle ≡ ok after
    → (after.users ≡ user ∷ before.users) × (after.credentials ≡ c ∷ before.credentials)
unfolding add_user add_credential
added user c before middle after h k = ground arith

store_administrator-Succeeds :
    (user : User) (c : PasswordCredential) (w w' : World)
    → Succeeds (store_administrator user c) w tt w'
    → (w.db.users ≡ []) × (w'.db.users ≡ user ∷ []) × (w'.db.credentials ≡ c ∷ w.db.credentials)
unfolding store_administrator
store_administrator-Succeeds user c w w' h =
    let (u, v, same, _, body, after, _) = transaction-Succeeds _ w tt w' h in
    let (_, a, free, r1) = >>=-Succeeds _ _ u tt v body in
    let (_, b, one, two) = >>=-Succeeds _ _ a tt v r1 in
    let (vacant, kept, _) = query-Succeeds require_no_user u tt a free in
    let start : a.db ≡ w.db = kept ∙ same in
    let (users, credentials) =
      added user c a.db b.db v.db (exec-Succeeds (add_user user) a b one).0
        (exec-Succeeds (add_credential c) b v two).0 in
    let none_before : w.db.users ≡ [] =
      ap (λ d. d.users) (sym same) ∙ require_no_user-ok u.db vacant in
    (
      none_before,
      ap (λ d. d.users) after
          ∙ users
          ∙ ap (λ us. user ∷ us) (ap (λ d. d.users) start ∙ none_before),
      ap (λ d. d.credentials) after ∙ credentials ∙ ap (λ d. c ∷ d.credentials) start,
    )

alone-IsAdministered :
    (user : User) (db : Database)
    → db.users ≡ user ∷ []
    → user.active ≡ true
    → user.role ≡ admin
    → IsAdministered db
alone-IsAdministered user db only active ranked = record {
  unique = subst IsUnique (sym only) (refl, tt);
  administrator = ground (arith, only, active, ranked);
}

-- A successful bootstrap found no user. It leaves one, an active administrator, with a credential for
-- the hash of an accepted password. From then on, whatever is created, updated and deleted and whatever
-- driver failures there are, the archive has an active administrator, and no bootstrap succeeds again.
pub bootstrap_admin-once :
    (g : Platform) (h : Hasher) (id username display_name password : Text) (now : Time) (w : World)
    (user : User) (w' : World)
    → Succeeds (bootstrap_admin g h id username display_name password now) w user w'
    → (cs : List UserCall) → All IsWellMade cs
    → (other : User) (another : PasswordCredential)
    → (w.db.users ≡ [])
      × (w'.db.users ≡ user ∷ [])
      × ((encoded : Text) × (c : PasswordCredential) × (h.hash password ≡ ok encoded)
          × (validate_password (h.runes password) ≡ ok tt)
          × (new_password_credential g user.id encoded now ≡ ok c)
          × (w'.db.credentials ≡ c ∷ w.db.credentials))
      × IsAdministered (history g cs w').db
      × ((store_administrator other another (history g cs w')).0 ≢ ok tt)
unfolding bootstrap_admin
bootstrap_admin-once g h id username display_name password now w user w' k cs well_made other
      another =
    let (u, a, made, r1) = >>=-Succeeds _ _ w user w' k in
    let (_, b, accepted, r2) = >>=-Succeeds _ _ a user w' r1 in
    let (encoded, c, hashed, r3) = >>=-Succeeds _ _ b user w' r2 in
    let (credential, d, made_of, r4) = >>=-Succeeds _ _ c user w' r3 in
    let (_, e, stored, returned) = >>=-Succeeds _ _ d user w' r4 in
    let same : d.db ≡ w.db =
      ap (λ p. p.1.db) (sym made_of)
      ∙ ap (λ p. p.1.db) (sym hashed)
      ∙ ap (λ p. p.1.db) (sym accepted)
      ∙ ap (λ p. p.1.db) (sym made) in
    let ended : e.db ≡ w'.db = ap (λ p. p.1.db) returned in
    let is_user : u ≡ user = ground (arith, returned) in
    let (vacant, users, credentials) = store_administrator-Succeeds u credential d e stored in
    let (_, active, _, _, _, ranked, _, _) =
      new_user-IsUser g id username display_name admin now u (ap (λ p. p.0) made) in
    let only : w'.db.users ≡ u ∷ [] = ap (λ d. d.users) (sym ended) ∙ users in
    let kept =
      history-IsAdministered g cs w' well_made (alone-IsAdministered u w'.db only active ranked) in
    (
      ap (λ d. d.users) (sym same) ∙ vacant,
      only ∙ ap (λ x. x ∷ []) is_user,
      (
        encoded,
        credential,
        ap (λ p. p.0) hashed,
        ap (λ p. p.0) accepted,
        subst (λ x. new_password_credential g x.id encoded now ≡ ok credential) is_user
            (ap (λ p. p.0) made_of),
        ap (λ d. d.credentials) (sym ended)
            ∙ credentials
            ∙ ap (λ d. credential ∷ d.credentials) same,
      ),
      kept,
      λ done.
          let v = history g cs w' in
          let (none_there, _, _) =
            store_administrator-Succeeds other another v (store_administrator other another v).1
              (ap (λ r. (r, (store_administrator other another v).1)) done) in
          ground (arith, none_there, kept.administrator),
    )
