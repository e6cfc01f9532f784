-- ===== src/Main/Setup.antt =====
-- `main` of main.go after the flags are parsed, and the two `SetupWithManager` that it calls. What
-- controller-runtime does is a sequence of actions, and a platform says which of them succeed.
pub mod Laws
use reactivejob_operator.Prelude.{
  ℕ, String, ◌≡◌, refl, ap, ◌↔◌, Bool, true, false, Bool-cases, inl, inr, Option, none, some,
  Option-cases, List, [], ◌∷◌, if◌then◌else◌, arith, sym, ◌∙◌,
}
use reactivejob_operator.Prelude.Int.{ℤ}
use reactivejob_operator.Controller.Objects.{label_controller_name}
use reactivejob_operator.Main.Address.{AddressError, parse_address}

-- The flags, by name.
pub record Flags : Type 0 where
  pub metrics_addr : String
  pub probe_addr : String
  pub webhook_addr : String
  pub webhook_cert_dir : String
  pub enable_leader_election : Bool

abbrev pub default_flags : Flags
default_flags = record {
  metrics_addr = ":8080";
  probe_addr = ":8081";
  webhook_addr = ":9443";
  webhook_cert_dir = "";
  enable_leader_election = false;
}

abbrev leader_election_id : String
leader_election_id = "reactivejob-operator.batch.cs.sap.com"

-- The kinds of objects that the client reads past its cache.
pub data Kind : Type 0 where
  reactive_job job : Kind

-- `ctrl.Options`, as far as `main` fills it in.
pub record ManagerOptions : Type 0 where
  pub disable_for : List Kind
  pub leader_election : Bool
  pub leader_election_id : String
  pub leader_election_release_on_cancel : Bool
  pub webhook_host : String
  pub webhook_port : ℤ
  pub webhook_cert_dir : String
  pub metrics_bind_address : String
  pub health_probe_bind_address : String

pub data Action : Type 0 where
  new_manager : ManagerOptions → Action
  -- the predicate for jobs that carry a label
  label_selector_predicate : String → Action
  -- a controller for one kind that watches another
  complete_controller : Kind → Kind → Action
  complete_webhook : Kind → Action
  add_healthz_check : String → Action
  add_readyz_check : String → Action
  log_info : String → Action
  log_error : String → String → Action
  start : Action

-- Whether the action succeeds, after those that were done before it, the newest first.
abbrev pub Platform : Type 0
Platform = List Action → Action → Bool

pub data Ended : Type 0 where
  returned : Ended
  exited : ℕ → Ended

-- The state of `main`: what has been done.
abbrev pub Process : Type 0
Process = List Action → Ended × List Action

module _ (platform : Platform) where
  -- `log_error(...); os.Exit(1)`
  abbrev fail : String → String → Process
  fail message controller h = (exited 1, log_error message controller ∷ h)

  -- `if err := ...; err != nil { log; os.Exit(1) }`
  abbrev attempt : Action → Process → Process → Process
  attempt a failing next h =
      let rest = next (a ∷ h) in if platform h a then rest else failing (a ∷ h)

  -- `(*ReactiveJobReconciler).SetupWithManager`, with what follows on an error and on success
  unfoldable pub setup_controller : Process → Process → Process
  setup_controller failing next =
      attempt (label_selector_predicate label_controller_name) failing
        (attempt (complete_controller Kind.reactive_job Kind.job) failing next)

  -- `(*ReactiveJobWebhook).SetupWithManager`
  unfoldable pub setup_webhook : Process → Process → Process
  setup_webhook failing next = attempt (complete_webhook Kind.reactive_job) failing next

  unfoldable pub manager_options : Flags → String → ℤ → ManagerOptions
  manager_options flags host port = record {
    disable_for = Kind.reactive_job ∷ Kind.job ∷ [];
    leader_election = flags.enable_leader_election;
    leader_election_id = leader_election_id;
    leader_election_release_on_cancel = true;
    webhook_host = host;
    webhook_port = port;
    webhook_cert_dir = flags.webhook_cert_dir;
    metrics_bind_address = flags.metrics_addr;
    health_probe_bind_address = flags.probe_addr;
  }

  abbrev start_manager : Process
  start_manager h =
      attempt start (fail "problem running manager" "") (λ h'. (returned, h'))
        (log_info "starting manager" ∷ h)

  abbrev with_address : Flags → String × (ℤ × Option AddressError) → Process
  with_address flags (host, (port, some e)) h =
      fail "unable to parse webhook bind address" "Space" h
  with_address flags (host, (port, none)) h =
      attempt (new_manager (manager_options flags host port)) (fail "unable to start manager" "")
        (setup_controller (fail "unable to create controller" "ReactiveJob") (
          setup_webhook (fail "unable to create webhook" "ReactiveJob") (
            attempt (add_healthz_check "healthz") (fail "unable to set up health check" "") (
              attempt (add_readyz_check "readyz") (fail "unable to set up ready check" "")
                start_manager))))
        h

  unfoldable pub main : Flags → Process
  main flags = with_address flags (parse_address flags.webhook_addr)

  -- Each action of the list, the newest first, succeeds after those below it; logging always does.
  unfoldable pub Succeeds : List Action → Type 0
  Succeeds [] = Unit
  Succeeds (log_info message ∷ h) = Succeeds h
  Succeeds (a ∷ h) = (platform h a ≡ true) × Succeeds h

  -- All that `main` does on the way to its end, the newest first.
  abbrev pub full_setup : Flags → String → ℤ → List Action
  full_setup flags host port =
      start
      ∷ log_info "starting manager"
      ∷ add_readyz_check "readyz"
      ∷ add_healthz_check "healthz"
      ∷ complete_webhook Kind.reactive_job
      ∷ complete_controller Kind.reactive_job Kind.job
      ∷ label_selector_predicate label_controller_name
      ∷ new_manager (manager_options flags host port)
      ∷ []
