-- ===== src/Webhook/Laws.antt =====
-- What the validation accepts.
use reactivejob_operator.Prelude.{false, ◌≡◌, refl, ◌↔◌, ◌⊎◌, none, eq_iff, arith}
use reactivejob_operator.Api.Meta.{is_zero}
use reactivejob_operator.Api.Types.{Job, ReactiveJob}
use reactivejob_operator.Kube.Server.{Server, Reply, done, failed, History}
use reactivejob_operator.Webhook.{probe_job, refused, validate}

module _ {E : Type 0} (server : Server E) (r : ReactiveJob E) (h : History E) where
  -- The template names nothing that the controller chooses.
  abbrev pub IsUnnamed : Type 0
  IsUnnamed =
      (r.spec.job_template.meta.namespace ≡ "")
      × (r.spec.job_template.meta.name ≡ "")
      × (r.spec.job_template.meta.generate_name ≡ "")

  abbrev pub IsAccepted : Type 0
  IsAccepted = (job : Job E) × (server.dry_run_create_job h (probe_job r) ≡ done job)

  refused_iff :
      (reply : Reply (Job E)) → (refused reply ≡ none) ↔ ((job : Job E) × (reply ≡ done job))
  refused_iff (done job) = (λ _. (job, refl), λ _. refl)
  refused_iff (failed e) = (λ p. cc, λ p. cc p.1)

  -- An object passes the validation exactly if it is being deleted, or its template gives no
  -- namespace, name or generateName and the server accepts the dry run of the probe.
  pub validate_iff :
      ((validate server r h).0 ≡ none)
      ↔ ((is_zero r.meta.deletion_timestamp ≡ false) ⊎ (IsUnnamed × IsAccepted))
  unfolding validate
  validate_iff =
      let ran = refused_iff (server.dry_run_create_job h (probe_job r)) in
      (
        λ passed. ground (
          arith,
          eq_iff r.spec.job_template.meta.namespace "",
          eq_iff r.spec.job_template.meta.name "",
          eq_iff r.spec.job_template.meta.generate_name "",
          ran.0,
        ),
        λ fine. ground (
          arith,
          eq_iff r.spec.job_template.meta.namespace "",
          eq_iff r.spec.job_template.meta.name "",
          eq_iff r.spec.job_template.meta.generate_name "",
          ran.1,
        ),
      )
