-- ===== src/Services/Events/Files.antt =====
-- Recording an event touches no file of the content store.
use go_mediaarchive.Base.{refl, arith}
use go_mediaarchive.Go.Text.{Text}
use go_mediaarchive.Go.Time.{Time}
use go_mediaarchive.Go.Failure.{Error}
use go_mediaarchive.Go.Action.{Action, fail, ◌>>=◌, ◌>>◌}
use go_mediaarchive.Identity.Username.{Platform}
use go_mediaarchive.Identity.User.{User}
use go_mediaarchive.Audit.Kinds.{EventType, Outcome, TargetType, Reason}
use go_mediaarchive.Audit.{Event}
use go_mediaarchive.Store.Tables.{World}
use go_mediaarchive.Store.Statements.Files.{
  KeepsFiles, >>=-KeepsFiles, insert_audit_event-KeepsFiles,
}
use go_mediaarchive.Store.Events.{insert_audit_event}
use go_mediaarchive.Services.Events.{next_event_id, new_actor_event, append_and_fail}

pub new_actor_event-KeepsFiles :
    (g : Platform) (actor : User) (t : EventType) (o : Outcome) (k : TargetType) (id name : Text)
    (r : Reason) (now : Time)
    → KeepsFiles (new_actor_event g actor t o k id name r now)
unfolding new_actor_event next_event_id ◌>>=◌
new_actor_event-KeepsFiles g actor t o k id name r now w = ground arith

pub append_and_fail-KeepsFiles :
    (A : Type 0) (g : Platform) (make : Action World Event) (e : Error)
    → KeepsFiles make
    → KeepsFiles (append_and_fail {A = A} g make e)
unfolding append_and_fail
append_and_fail-KeepsFiles A g make e keeps =
    >>=-KeepsFiles make (λ event. insert_audit_event g event >> fail {A = A} e) keeps
      (λ event.
        >>=-KeepsFiles (insert_audit_event g event) (λ _. fail {A = A} e)
          (insert_audit_event-KeepsFiles g event) (λ _ v. refl))
