-- ===== src/Controller/Runs/Panic.antt =====
-- The run that meets a job whose generation cannot be read.
use mathlib.Core.List.{Memᴰ}
use reactivejob_operator.Prelude.{◌≤◌, ◌≡◌, false, List, ◌∷◌, str_eq, length}
use reactivejob_operator.Api.Meta.{NamespacedName}
use reactivejob_operator.Api.Types.{Job, ReactiveJob}
use reactivejob_operator.Kube.Server.{Server, History, done, get, update_status}
use reactivejob_operator.Kube.Library.{Library, IsLibrary, panic}
use reactivejob_operator.Controller.Hash.{must_atoi}
use reactivejob_operator.Controller.Objects.{label_controller_uid, generation_of}
use reactivejob_operator.Controller.Newest.{unreadable_panics}
use reactivejob_operator.Controller.Reconcile.{acknowledged, aggregated, finish, reconcile}
use reactivejob_operator.Controller.Runs.{looked_up, reconcile-panics}

module _ {E : Type 0} (server : Server E) (lib : Library E) (laws : IsLibrary lib) where
  -- If the server lists two or more jobs for a ReactiveJob that was seen before, and the generation of
  -- one of them cannot be read, the run panics: it creates, releases and deletes nothing, and still
  -- sends the status, with nothing changed in it but the observed generation.
  pub reconcile-unreadable :
      (request : NamespacedName) (r : ReactiveJob E) (h : History E) (items : List (Job E))
      (x : Job E)
      → server.get h request ≡ done r
      → str_eq r.status.state "" ≡ false
      → server.list (get request ∷ h) request.namespace label_controller_uid r.meta.uid ≡ done items
      → Memᴰ x items
      → 2 ≤ length items
      → must_atoi (generation_of x) ≡ panic
      → reconcile server lib request h ≡ (
        aggregated panic (server.update_status (looked_up request r h) (acknowledged r)),
        update_status (acknowledged r) ∷ looked_up request r h,
      )
  unfolding finish
  reconcile-unreadable request r h items x read seen listed m two unreadable =
      reconcile-panics server lib request r h read seen listed
        (unreadable_panics lib laws x items m two unreadable)
