-- ===== src/Tests/Sample.antt =====
-- A library and servers that the examples run on. Content that the operator does not read is `tt`.
use reactivejob_operator.Prelude.{String, none, some, List, [], ◌∷◌, concat}
use reactivejob_operator.Prelude.Int.{pos}
use reactivejob_operator.Api.Meta.{ObjectMeta, NamespacedName}
use reactivejob_operator.Api.Types.{
  Job, JobCondition, JobTemplateSpec, ReactiveJob, state_processing,
}
use reactivejob_operator.Kube.Server.{Server, done}
use reactivejob_operator.Kube.Library.{
  Library, IsLibrary, Error, api, wrap, aggregate_one, aggregate,
}
use reactivejob_operator.Controller.Objects.{finalizer}
use reactivejob_operator.Tests.Sorting.{sort, sort-sorts, sort_one, sort_panics, sort-fine}
use reactivejob_operator.Tests.Strings.{contains, remove, add, contains_iff, mem-remove, mem-add}

abbrev pub Content : Type 0
Content = Unit {0}

abbrev pub text : Error → String
text (api e) = e.text
text (wrap message e) = concat message (concat ": " (text e))
text (aggregate_one e) = text e
text (aggregate e e') = concat (text e) (concat ", " (text e'))

abbrev pub library : Library Content
library = record {
  contains = contains;
  remove = remove;
  add_finalizer = add;
  remove_finalizer = remove;
  sort_by = sort;
  marshal = λ template. some (0x7b ∷ 0x7d ∷ []);
  sum256 = λ raw. raw;
  error_text = text;
}

pub library-IsLibrary : IsLibrary library
library-IsLibrary = record {
  contains_iff = contains_iff;
  mem-remove = mem-remove;
  mem-add_finalizer = mem-add;
  mem-remove_finalizer = mem-remove;
  sorts = sort-sorts;
  sort_one = sort_one;
  sort_fine = sort-fine;
  sort_panics = sort_panics;
}

abbrev pub plain_meta : String → ObjectMeta Content
plain_meta name = record {
  name = name;
  generate_name = "";
  namespace = "default";
  uid = "u-1";
  generation = pos 3;
  deletion_timestamp = none;
  labels = none;
  annotations = none;
  finalizers = finalizer ∷ [];
  rest = tt;
}

abbrev pub template : JobTemplateSpec Content
template = record {
  meta = record (plain_meta "") {
    namespace = "";
    finalizers = [];
    labels = some (("app", "x") ∷ []);
  };
  spec = tt;
}

abbrev pub sample : ReactiveJob Content
sample = record {
  meta = plain_meta "demo";
  spec = record { job_template = template };
  status = record {
    observed_generation = pos 2;
    conditions = [];
    state = state_processing;
    current_job_name = "";
  };
}

abbrev pub dying : ReactiveJob Content
dying = record sample { meta = record (plain_meta "demo") { deletion_timestamp = some 7 } }

abbrev pub job : String → String → String → List JobCondition → Job Content
job name generation hash conditions = record {
  meta = record (plain_meta name) {
    annotations = some (
        ("batch.cs.sap.com/controller-generation", generation)
        ∷ ("batch.cs.sap.com/controller-hash", hash)
        ∷ []);
  };
  spec = tt;
  conditions = conditions;
}

abbrev pub complete_condition : JobCondition
complete_condition = record { type = "Complete"; status = "True"; reason = "Done"; message = "all" }

-- The hash that `jsonHash` gives with the library above.
abbrev pub sample_hash : String
sample_hash = "7b7d"

abbrev pub current_job : Job Content
current_job = job "demo-b" "3" sample_hash (complete_condition ∷ [])

abbrev pub old_job : Job Content
old_job = job "demo-a" "1" "00" []

-- A server that holds one ReactiveJob and some jobs, and accepts everything.
abbrev pub server : ReactiveJob Content → List (Job Content) → Server Content
server r jobs = record {
  get = λ h request. done r;
  list = λ h ns key value. done jobs;
  update = λ h r. done r;
  update_status = λ h r. done r;
  create_job = λ h j. done j;
  dry_run_create_job = λ h j. done j;
  update_job = λ h j. done j;
  delete_job = λ h j. done tt;
  now = λ h. 99;
}

abbrev pub request : NamespacedName
request = record { namespace = "default"; name = "demo" }
