-- ===== src/Webhook.antt =====
-- internal/webhooks/reactivejob_webhook.go: validation and defaulting of ReactiveJobs. The log lines
-- are left out; the ten seconds of the dry run's context are part of what the server answers.
pub mod Laws
use reactivejob_operator.Prelude.{
  String, Bool, List, [], ◌∷◌, Option, none, some, str_eq, not, if◌then◌else◌, concat,
}
use reactivejob_operator.Api.Meta.{is_zero}
use reactivejob_operator.Api.Types.{Job, ReactiveJob}
use reactivejob_operator.Kube.Server.{
  Server, ApiError, Reply, done, failed, History, dry_run_create_job,
}

-- The error of `validate`; `dry_run_failed` carries the client's.
pub data Invalid : Type 0 where
  namespace_given name_given generate_name_given : Invalid
  dry_run_failed : ApiError → Invalid

module _ {E : Type 0} where
  -- The job of the dry run.
  unfoldable pub probe_job : ReactiveJob E → Job E
  probe_job r = record {
    meta = record (r.spec.job_template.meta) {
      namespace = r.meta.namespace;
      name = concat r.meta.name "-xxxxx";
    };
    spec = r.spec.job_template.spec;
    conditions = [];
  }

  -- The end of `validate`: an error of the dry run becomes one of the validation.
  abbrev pub refused : Reply (Job E) → Option Invalid
  refused (done _) = none
  refused (failed e) = some (dry_run_failed e)

  -- `none` is the nil error; the history grows by the calls that were made.
  pub validate : Server E → ReactiveJob E → History E → Option Invalid × History E
  unfolding probe_job
  validate server r h =
      if not (is_zero r.meta.deletion_timestamp)
      then (none, h)
      else if not (str_eq r.spec.job_template.meta.namespace "")
      then (some namespace_given, h)
      else if not (str_eq r.spec.job_template.meta.name "")
      then (some name_given, h)
      else if not (str_eq r.spec.job_template.meta.generate_name "")
      then (some generate_name_given, h)
      else (
        refused (server.dry_run_create_job h (probe_job r)),
        dry_run_create_job (probe_job r) ∷ h,
      )

  pub validate_create : Server E → ReactiveJob E → History E → Option Invalid × History E
  unfolding validate
  validate_create server r h = validate server r h

  pub validate_update :
      Server E → ReactiveJob E → ReactiveJob E → History E → Option Invalid × History E
  unfolding validate
  validate_update server old_object new_object h = validate server new_object h

  pub validate_delete : Server E → ReactiveJob E → History E → Option Invalid × History E
  validate_delete server r h = (none, h)

  -- `Default` changes nothing.
  unfoldable pub default : ReactiveJob E → ReactiveJob E
  default r = r
