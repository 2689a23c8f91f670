-- ===== src/Services/Authentication/Verdicts.antt =====
-- internal/application/authentication/service.go: who is authenticated.
use go_mediaarchive.Base.{◌≡◌, ◌≢◌, ap, Bool, true, false, Option, none, some, arith, find}
use go_mediaarchive.Go.Text.{Text, text_eq}
use go_mediaarchive.Go.Failure.{ok, Error, is, user_not_found, credential_not_found}
use go_mediaarchive.Go.Action.{lift, ◌>>=◌}
use go_mediaarchive.Identity.Username.{Platform, normalize_username}
use go_mediaarchive.Identity.Username.Laws.{normalize_username_idem}
use go_mediaarchive.Identity.User.{User}
use go_mediaarchive.Credential.{PasswordCredential}
use go_mediaarchive.Store.Tables.{World}
use go_mediaarchive.Store.Statements.Success.{Succeeds, >>=-Succeeds, query-Succeeds}
use go_mediaarchive.Store.Users.Rows.{one_row}
use go_mediaarchive.Store.Users.{find_user_by_username}
use go_mediaarchive.Store.Credentials.{one_credential, find_credential}
use go_mediaarchive.Services.Users.Changes.{catch-Succeeds}
use go_mediaarchive.Services.Authentication.{
  Verifier, reject_with_dummy, reject_or_fail, compare_password, authenticate_user, authenticate,
}

reject_with_dummy-err :
    (v : Verifier) (password : Text) (w : World) (u : User)
    → (reject_with_dummy v password w).0 ≢ ok u
unfolding reject_with_dummy ◌>>=◌
reject_with_dummy-err v password w u h = ground arith

reject_or_fail-err :
    (v : Verifier) (password : Text) (b : Bool) (e : Error) (w : World) (u : User)
    → (reject_or_fail v password b e w).0 ≢ ok u
unfolding reject_or_fail
reject_or_fail-err v password true e w u h = reject_with_dummy-err v password w u h
reject_or_fail-err v password false e w u h = cc

one_credential-ok :
    (o : Option PasswordCredential) (c : PasswordCredential) → one_credential o ≡ ok c → o ≡ some c
one_credential-ok none c h = cc
one_credential-ok (some d) c h = ground arith

pub find_credential-Succeeds :
    (id : Text) (w : World) (c : PasswordCredential) (w' : World)
    → Succeeds (find_credential id) w c w'
    → (find (λ c. text_eq c.user_id id) w.db.credentials ≡ some c) × (w'.db ≡ w.db)
unfolding find_credential
find_credential-Succeeds id w c w' h =
    let q =
      query-Succeeds (λ db. one_credential (find (λ c. text_eq c.user_id id) db.credentials)) w c w'
        h in
    (one_credential-ok (find (λ c. text_eq c.user_id id) w.db.credentials) c q.0, q.1)

row-ok : (o : Option User) (u : User) → one_row o ≡ ok u → o ≡ some u
row-ok none u h = cc
row-ok (some v) u h = ground arith

find_user_by_username-Succeeds :
    (g : Platform) (name : Text) (w : World) (u : User) (w' : World)
    → Succeeds (find_user_by_username g name) w u w'
    → (n : Text) × (normalize_username g name ≡ ok n)
      × (find (λ u. text_eq u.username n) w.db.users ≡ some u)
      × (w'.db ≡ w.db)
unfolding find_user_by_username
find_user_by_username-Succeeds g name w u w' h =
    let (n, x, a, b) = >>=-Succeeds _ _ w u w' h in
    let q = query-Succeeds (λ db. one_row (find (λ u. text_eq u.username n) db.users)) x u w' b in
    (
      n,
      ap (λ p. p.0) a,
      ground (arith, a, row-ok (find (λ u. text_eq u.username n) x.db.users) u q.0),
      ground (arith, a, q.1),
    )

compare_password-Succeeds :
    (v : Verifier) (password : Text) (user : User) (c : PasswordCredential) (w : World) (u : User)
    (w' : World)
    → Succeeds (compare_password v password user c) w u w'
    → (u ≡ user) × (v.verify password c.password_hash ≡ ok true) × (user.active ≡ true)
unfolding compare_password
compare_password-Succeeds v password user c w u w' h =
    let (matches, x, a, b) = >>=-Succeeds _ _ w u w' h in
    (ground (arith, a, b), ground (arith, a, b), ground (arith, a, b))

-- Who is authenticated is a stored user under the normal form of the name, active, with a stored
-- credential whose hash the password matches.
pub authenticate-Succeeds :
    (g : Platform) (v : Verifier) (name password : Text) (w : World) (u : User) (w' : World)
    → Succeeds (authenticate g v name password) w u w'
    → (n : Text) × (c : PasswordCredential) × (normalize_username g name ≡ ok n)
      × (find (λ u. text_eq u.username n) w.db.users ≡ some u)
      × (u.active ≡ true)
      × (find (λ c. text_eq c.user_id u.id) w.db.credentials ≡ some c)
      × (v.verify password c.password_hash ≡ ok true)
unfolding authenticate authenticate_user
authenticate-Succeeds g v name password w u w' h =
    let (n, w1, named, r1) =
      catch-Succeeds (lift (normalize_username g name)) _ _ w u w'
        (λ e z. reject_with_dummy-err v password z u) h in
    let (user, w2, found, r2) =
      catch-Succeeds (find_user_by_username g n)
        (λ e. reject_or_fail v password (is user_not_found e) e) _ w1 u w'
        (λ e z. reject_or_fail-err v password (is user_not_found e) e z u) r1 in
    let (c, w3, held, r3) =
      catch-Succeeds (find_credential user.id)
        (λ e. reject_or_fail v password (is credential_not_found e) e) _ w2 u w'
        (λ e z. reject_or_fail-err v password (is credential_not_found e) e z u) r2 in
    let (same, matches, active) = compare_password-Succeeds v password user c w3 u w' r3 in
    let (m, again, row, d2) = find_user_by_username-Succeeds g n w1 user w2 found in
    let (credential, d3) = find_credential-Succeeds user.id w2 c w3 held in
    let normal : normalize_username g name ≡ ok n = ap (λ p. p.0) named in
    let once = normalize_username_idem g name n normal in
    (
      n,
      c,
      normal,
      ground (arith, again, once, row, named, same),
      ground (arith, same, active),
      ground (arith, same, credential, d2, named),
      matches,
    )
