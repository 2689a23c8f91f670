-- ===== src/Services/Deletion/Removal.antt =====
-- internal/application/media/managed_deletion.go: a successful `DeleteItem` as a whole.
use go_mediaarchive.Base.{◌≡◌, ◌⊎◌, some, find}
use go_mediaarchive.Go.Text.{Text, text_eq}
use go_mediaarchive.Go.Time.{Time}
use go_mediaarchive.Identity.User.{User}
use go_mediaarchive.Content.{Location}
use go_mediaarchive.Store.Tables.{World}
use go_mediaarchive.Services.Deletion.Failures.{Hidden}

-- No file is touched, or that of the stored content row is no longer published.
abbrev pub Unpublished : Text → World → World → Type 0
Unpublished id w v =
    (v.files ≡ w.files)
    ⊎ ((row : Location) × (find (λ c. text_eq c.media_id id) w.db.contents ≡ some row)
        × Hidden row.storage_key w v)
