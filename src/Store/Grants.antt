-- ===== src/Store/Grants.antt =====
-- internal/storage/sqlite/media_grant_repository.go. The `media_grants` table has the primary key
-- `(media_id, user_id)`, and its rows refer to `media_items` and `users`.
use go_mediaarchive.Base.{
  ℕ, Bool, true, false, not, ◌&&◌, ◌||◌, Option, none, some, List, [], ◌∷◌, ltb, ◌==◌,
  if◌then◌else◌, any, find, keep, map,
}
use go_mediaarchive.Go.Text.{Text, text_eq}
use go_mediaarchive.Go.Failure.{Result, ok, err, grant_not_found, invalid_grant, driver}
use go_mediaarchive.Go.Action.{Action, lift, ◌>>=◌, ◌>>◌}
use go_mediaarchive.Identity.Username.{Platform}
use go_mediaarchive.Media.Grant.{Grant, validate_grant, new_grant}
use go_mediaarchive.Audit.{Event}
use go_mediaarchive.Store.Tables.{Database, World}
use go_mediaarchive.Store.Statements.{query, exec, transaction}
use go_mediaarchive.Store.Events.{insert_optional_event}

abbrev pub is_grant_of : Text → Text → Grant → Bool
is_grant_of media_id user_id r = text_eq r.media_id media_id && text_eq r.user_id user_id

abbrev pub replaced_grant : Grant → Grant → Grant
replaced_grant new r =
    if is_grant_of new.media_id new.user_id r then record r { permissions = new.permissions } else r

-- INSERT INTO media_grants … ON CONFLICT DO UPDATE SET permissions = excluded.permissions
unfoldable pub put_grant : Grant → Database → Result Database
put_grant new db =
    if any (is_grant_of new.media_id new.user_id) db.grants
    then ok (record db { grants = map (replaced_grant new) db.grants })
    else if not (
        any (λ i. text_eq i.id new.media_id) db.items
        && any (λ u. text_eq u.id new.user_id) db.users)
    then err (driver ∷ [])
    else ok (record db { grants = new ∷ db.grants })

-- `save`
unfoldable pub save_grant : Platform → Grant → Option Event → Action World (Unit {0})
save_grant g grant event = do
  lift (validate_grant g grant)
  transaction (do exec (put_grant grant); insert_optional_event g event)

-- `validateStoredGrant`
unfoldable pub validate_stored_grant : Platform → Text → Text → ℕ → Result Grant
validate_stored_grant g media_id user_id permissions =
    if ltb 255 permissions
    then err (invalid_grant ∷ [])
    else new_grant g media_id user_id permissions

abbrev pub one_grant : Option Grant → Result Grant
one_grant none = err (grant_not_found ∷ [])
one_grant (some r) = ok r

-- `Find`
unfoldable pub find_grant : Platform → Text → Text → Action World Grant
find_grant g media_id user_id = do
  row ← query (λ db. one_grant (find (is_grant_of media_id user_id) db.grants))
  lift (validate_stored_grant g media_id user_id row.permissions)

-- The order of texts: SQLite compares their bytes, and so their code points.
unfoldable pub text_leb : Text → Text → Bool
text_leb [] t = true
text_leb (a ∷ s) [] = false
text_leb (a ∷ s) (b ∷ t) = let rest = text_leb s t in ltb a b || (a == b && rest)

-- ORDER BY user_id, by insertion.
unfoldable pub place_grant : Grant → List Grant → List Grant
place_grant r [] = r ∷ []
place_grant r (s ∷ rows) =
    let later = place_grant r rows in
    if text_leb r.user_id s.user_id then r ∷ s ∷ rows else s ∷ later

unfoldable pub by_user : List Grant → List Grant
by_user [] = []
by_user (r ∷ rows) = place_grant r (by_user rows)

-- The loop over the rows.
unfoldable pub validate_rows : Platform → Text → List Grant → Result (List Grant)
validate_rows g media_id [] = ok []
validate_rows g media_id (r ∷ rows) =
    let rest = validate_rows g media_id rows in
    elim (validate_stored_grant g media_id r.user_id r.permissions) [
      | err e ↦ err e
      | ok grant ↦ elim rest [ err e ↦ err e | ok grants ↦ ok (grant ∷ grants) ]
    ]

-- `ListByMedia`
unfoldable pub list_grants : Platform → Text → Action World (List Grant)
list_grants g media_id =
    query
      (λ db. validate_rows g media_id (by_user (keep (λ r. text_eq r.media_id media_id) db.grants)))

unfoldable pub remove_grant : Text → Text → Database → Result Database
remove_grant media_id user_id db =
    if any (is_grant_of media_id user_id) db.grants
    then ok (record db { grants = keep (λ r. not (is_grant_of media_id user_id r)) db.grants })
    else err (grant_not_found ∷ [])

-- `delete`
unfoldable pub delete_grant : Platform → Text → Text → Option Event → Action World (Unit {0})
delete_grant g media_id user_id event =
    transaction (do exec (remove_grant media_id user_id); insert_optional_event g event)
