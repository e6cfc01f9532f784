-- ===== src/Kube/Server.antt =====
-- The API server as client.Client shows it. Its answers may depend on all calls that were made
-- before, so any server, and any other actor beside the operator, is such a record.
use reactivejob_operator.Prelude.{String, Bool, List}
use reactivejob_operator.Api.Meta.{NamespacedName, Time}
use reactivejob_operator.Api.Types.{Job, ReactiveJob}

-- An error of a client call: whether `apierrors.IsNotFound` holds of it, and its text.
pub record ApiError : Type 0 where
  pub not_found : Bool
  pub text : String

pub data Reply (A : Type 0) : Type 0 where
  done : A → Reply A
  failed : ApiError → Reply A

pub data Call (E : Type 0) : Type 0 where
  get : NamespacedName → Call E
  -- the jobs of a namespace that carry a label with a value
  list : String → String → String → Call E
  update : ReactiveJob E → Call E
  update_status : ReactiveJob E → Call E
  create_job : Job E → Call E
  dry_run_create_job : Job E → Call E
  update_job : Job E → Call E
  -- with foreground propagation
  delete_job : Job E → Call E

-- The calls so far, the newest first.
abbrev pub History : Type 0 → Type 0
History E = List (Call E)

-- A successful call that is handed an object writes the server's object into it: that is its reply.
pub record Server (E : Type 0) : Type 0 where
  pub get : History E → NamespacedName → Reply (ReactiveJob E)
  pub list : History E → String → String → String → Reply (List (Job E))
  pub update : History E → ReactiveJob E → Reply (ReactiveJob E)
  pub update_status : History E → ReactiveJob E → Reply (ReactiveJob E)
  pub create_job : History E → Job E → Reply (Job E)
  pub dry_run_create_job : History E → Job E → Reply (Job E)
  pub update_job : History E → Job E → Reply (Job E)
  pub delete_job : History E → Job E → Reply (Unit {0})
  -- `metav1.Now()` after these calls
  pub now : History E → Time
