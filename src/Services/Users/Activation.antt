-- ===== src/Services/Users/Activation.antt =====
-- internal/application/users/service.go: what a successful change of a user's activation has done.
use go_mediaarchive.Base.{
  ◌≡◌, sym, subst, ap, ◌∙◌, ◌⊎◌, inl, inr, Bool, true, false, not, ◌&&◌, some, [], ◌∷◌, arith, find,
  Bool-cases,
}
use go_mediaarchive.Go.Text.{Text, text_eq}
use go_mediaarchive.Go.Time.{Time}
use go_mediaarchive.Go.Failure.{ok, self_lockout}
use go_mediaarchive.Identity.Username.{Platform, is_admin, canonical_uuid}
use go_mediaarchive.Identity.User.{User, set_active}
use go_mediaarchive.Audit.Kinds.{Reason}
use go_mediaarchive.Audit.{Event}
use go_mediaarchive.Store.Tables.{Database, World}
use go_mediaarchive.Store.Statements.Atomicity.{Result-cases}
use go_mediaarchive.Store.Statements.Success.{Succeeds}
use go_mediaarchive.Store.Users.Effects.{Recorded, Updated}
use go_mediaarchive.Services.Users.{
  activation_type, same_bool, activate_existing, persist_updated, set_user_active,
}
use go_mediaarchive.Services.Users.Changes.{
  record_denied_change-err, with_user-Succeeds, persist_updated-Succeeds,
}

-- An administrator that would deactivate the own account.
abbrev pub deactivates_self : User → User → Bool → Bool
deactivates_self actor existing active =
    text_eq actor.id existing.id && is_admin existing.role && not active

-- The user has the asked state already and nothing changes, or the row gets it with one event.
abbrev pub Activates : Platform → User → Bool → Time → User → Database → Database → Type 0
Activates g existing active now u before after =
    ((same_bool existing.active active ≡ true) × (u ≡ existing) × (after ≡ before))
    ⊎ ((same_bool existing.active active ≡ false)
        × (set_active existing active now ≡ ok u)
        × ((event : Event) × (db : Database) × Updated u before db
            × Recorded g (some event) db after))

activate_existing-allowed :
    (g : Platform) (actor existing : User) (active : Bool) (now : Time) (w : World) (u : User)
    → (activate_existing g actor existing active now w).0 ≡ ok u
    → deactivates_self actor existing active ≡ false
unfolding activate_existing
activate_existing-allowed g actor existing active now w u h = ground (
  arith,
  record_denied_change-err g actor (activation_type active) existing Reason.self_lockout now
      (self_lockout ∷ []) w u,
)

activate_existing-same :
    (g : Platform) (actor existing : User) (active : Bool) (now : Time) (w : World)
    → deactivates_self actor existing active ≡ false
    → same_bool existing.active active ≡ true
    → activate_existing g actor existing active now w ≡ (ok existing, w)
unfolding activate_existing
activate_existing-same g actor existing active now w a b = ground (arith, a, b)

activate_existing-steps :
    (g : Platform) (actor existing : User) (active : Bool) (now : Time) (w : World) (u : User)
    → deactivates_self actor existing active ≡ false
    → same_bool existing.active active ≡ false
    → (activate_existing g actor existing active now w).0 ≡ ok u
    → (updated : User) × (set_active existing active now ≡ ok updated)
      × (activate_existing g actor existing active now w
          ≡ persist_updated g actor (activation_type active) existing updated now w)
unfolding activate_existing
activate_existing-steps g actor existing active now w u a b h =
    elim (Result-cases (set_active existing active now)) [
      | inl (updated, q) ↦ (updated, q, ground (arith, a, b, q))
      | inr (e, q) ↦ ground (
        arith,
        a,
        b,
        q,
        record_denied_change-err g actor (activation_type active) existing Reason.invalid_input now
            e w u,
      )
    ]

activate_existing-Succeeds :
    (g : Platform) (actor existing : User) (active : Bool) (now : Time) (w : World) (u : User)
    (w' : World)
    → Succeeds (activate_existing g actor existing active now) w u w'
    → (deactivates_self actor existing active ≡ false)
      × Activates g existing active now u w.db w'.db
activate_existing-Succeeds g actor existing active now w u w' h =
    let done = ap (λ p. p.0) h in
    let allowed = activate_existing-allowed g actor existing active now w u done in
    (
      allowed,
      elim (Bool-cases (same_bool existing.active active)) [
        | inl b ↦
            let kept = sym (activate_existing-same g actor existing active now w allowed b) ∙ h in
            inl (b, ground (arith, kept), ground (arith, kept))
        | inr b ↦
            let (updated, valid, stored) =
              activate_existing-steps g actor existing active now w u allowed b done in
            let (same, changed) =
              persist_updated-Succeeds g actor (activation_type active) existing updated now w u w'
                (sym stored ∙ h) in
            inr (
              b,
              subst (λ x. set_active existing active now ≡ ok x) (sym same) valid,
              subst
                  (λ x.
                    (event : Event) × (db : Database) × Updated x w.db db
                    × Recorded g (some event) db w'.db)
                  (sym same) changed,
            )
      ],
    )

-- A successful `SetUserActive` found the user under a canonical ID, and does not deactivate the
-- administrator that acts. It changes nothing if the user has the state already; else it returns the user
-- with the new state, changes that row, which does not take the last active administrator from the
-- archive, and adds one event.
pub set_user_active-Succeeds :
    (g : Platform) (actor : User) (id : Text) (active : Bool) (now : Time) (w : World) (u : User)
    (w' : World)
    → Succeeds (set_user_active g actor id active now) w u w'
    → (existing : User) × (canonical_uuid g id ≡ true)
      × (find (λ u. text_eq u.id id) w.db.users ≡ some existing)
      × (deactivates_self actor existing active ≡ false)
      × Activates g existing active now u w.db w'.db
unfolding set_user_active
set_user_active-Succeeds g actor id active now w u w' h =
    let (existing, v, canonical, found, same, rest) =
      with_user-Succeeds g actor (activation_type active) id [] now
        (λ existing. activate_existing g actor existing active now) w u w' h in
    let (allowed, activated) = activate_existing-Succeeds g actor existing active now v u w' rest in
    (
      existing,
      canonical,
      found,
      allowed,
      subst (λ d. Activates g existing active now u d w'.db) same activated,
    )
