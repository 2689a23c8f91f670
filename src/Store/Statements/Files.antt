-- ===== src/Store/Statements/Files.antt =====
-- No statement on the tables touches the content store.
use go_mediaarchive.Base.{◌≡◌, refl, ◌∙◌, Bool, true, false, Option, none, some, arith}
use go_mediaarchive.Go.Failure.{Result, ok, err, Error}
use go_mediaarchive.Go.Action.{Action, lift, fail_if, catch, ◌>>=◌}
use go_mediaarchive.Identity.Username.{Platform}
use go_mediaarchive.Audit.{Event, new_event}
use go_mediaarchive.Store.Tables.{Database, World}
use go_mediaarchive.Store.Statements.{
  statement, query, exec, store_result, commit, finish, transaction,
}
use go_mediaarchive.Store.Events.{add_event, insert_audit_event, insert_optional_event}

-- The files of the content store are the same afterwards, however the action ends.
abbrev pub KeepsFiles : {A : Type 0} → Action World A → Type 0
KeepsFiles m = (w : World) → (m w).1.files ≡ w.files

statement-KeepsFiles : KeepsFiles statement
unfolding statement
statement-KeepsFiles w = ground arith

pub query-KeepsFiles : {A : Type 0} (f : Database → Result A) → KeepsFiles (query f)
unfolding query
query-KeepsFiles f w = ground (arith, statement-KeepsFiles w)

pub exec-KeepsFiles : (f : Database → Result Database) → KeepsFiles (exec f)
unfolding exec store_result
exec-KeepsFiles f w = ground (arith, statement-KeepsFiles w)

pub fail_if-KeepsFiles : (b : Bool) (e : Error) → KeepsFiles (fail_if b e)
fail_if-KeepsFiles true e w = refl
fail_if-KeepsFiles false e w = refl

pub >>=-KeepsFiles :
    {A B : Type 0} (m : Action World A) (f : A → Action World B)
    → KeepsFiles m
    → ((a : A) → KeepsFiles (f a))
    → KeepsFiles (m >>= f)
unfolding ◌>>=◌
>>=-KeepsFiles {A = A} {B = B} m f first rest w = go (m w) (first w)
  where
    go :
        (p : Result A × World)
        → p.1.files ≡ w.files
        → (let (r, s') = p in
            elim r as (λ _. Result B × World) [ ok a ↦ f a s' | err e ↦ (err e, s') ]).1.files
          ≡ w.files
    go (ok a, v) h = rest a v ∙ h
    go (err e, v) h = h

pub catch-KeepsFiles :
    {A B : Type 0} (m : Action World A) (k : Error → Action World B) (f : A → Action World B)
    → KeepsFiles m
    → ((e : Error) → KeepsFiles (k e))
    → ((a : A) → KeepsFiles (f a))
    → KeepsFiles (catch m k f)
unfolding catch
catch-KeepsFiles {A = A} {B = B} m k f first failed rest w = go (m w) (first w)
  where
    go :
        (p : Result A × World)
        → p.1.files ≡ w.files
        → (let (r, s') = p in
            elim r as (λ _. Result B × World) [ ok a ↦ f a s' | err e ↦ k e s' ]).1.files
          ≡ w.files
    go (ok a, v) h = rest a v ∙ h
    go (err e, v) h = failed e v ∙ h

finish-KeepsFiles :
    {A : Type 0} (before : Database) (r : Result A) (w : World)
    → (finish before r w).1.files ≡ w.files
unfolding finish commit
finish-KeepsFiles before (ok a) w = ground (arith, statement-KeepsFiles w)
finish-KeepsFiles before (err e) w = refl

pub transaction-KeepsFiles :
    {A : Type 0} (body : Action World A) → KeepsFiles body → KeepsFiles (transaction body)
unfolding transaction
transaction-KeepsFiles body keeps w = ground (
  arith,
  statement-KeepsFiles w,
  keeps (statement w).1,
  finish-KeepsFiles (statement w).1.db (body (statement w).1).0 (body (statement w).1).1,
)

pub insert_audit_event-KeepsFiles : (g : Platform) (e : Event) → KeepsFiles (insert_audit_event g e)
unfolding insert_audit_event
insert_audit_event-KeepsFiles g e =
    >>=-KeepsFiles (lift (new_event g e)) _ (λ w. refl) (λ event. exec-KeepsFiles (add_event event))

pub insert_optional_event-KeepsFiles :
    (g : Platform) (e : Option Event) → KeepsFiles (insert_optional_event g e)
unfolding insert_optional_event
insert_optional_event-KeepsFiles g none w = refl
insert_optional_event-KeepsFiles g (some e) w = insert_audit_event-KeepsFiles g e w
