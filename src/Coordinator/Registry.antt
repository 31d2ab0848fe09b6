-- ===== src/Coordinator/Registry.antt =====
-- src/coordinator/registry.rs: how tasks come into the manager's map, from a request or from the
-- store. The configuration's default HTTP options and what the store answers are parameters.
pub mod Laws
use paradown.Prelude.{
  ℕ, zero, suc, String, Bool, true, false, Option, some, none, List, [], ◌∷◌, map, ◌==◌, str_eq,
  if◌then◌else◌, any, find, length, is_some, or_else, unwrap_or, option_map, add_u32, as_u32,
  and_then,
}
use paradown.Failure.{Error, other, Result, ok, err, ◌>>=◌}
use paradown.Status.{Status, from_str}
use paradown.Domain.Http.{HttpRequestOptions, HttpResourceIdentity, merged, no_options}
use paradown.Domain.Spec.{DownloadSpec, identity_key}
use paradown.Domain.Source.{SourceDescriptor, SourceSet, from_spec, for_spec, get, primary}
use paradown.Requests.{TaskRequest, SegmentRequest}
use paradown.Storage.{StoredBundle}
use paradown.Storage.Mapping.{Decoders}
use paradown.Recovery.{RestorePlan, FileSystem, build_restore_plan}
use paradown.Job.{Task, Worker}

-- An entry of `manager.tasks`: the key, and the task with its specification.
pub record Registered : Type 0 where
  pub id : ℕ
  pub spec : DownloadSpec
  pub task : Task

abbrev pub has_id : ℕ → Registered → Bool
has_id id entry = entry.id == id

abbrev pub has_key : String → Registered → Bool
has_key key entry = str_eq (identity_key entry.spec) key

abbrev pub contains_key : List Registered → ℕ → Bool
contains_key tasks id = any (has_id id) tasks

abbrev pub get_task : List Registered → ℕ → Option Registered
get_task tasks id = find (has_id id) tasks

-- DashMap::insert: the task that had the id is replaced.
unfoldable pub insert_task : Registered → List Registered → List Registered
insert_task entry [] = entry ∷ []
insert_task entry (t ∷ ts) = if t.id == entry.id then entry ∷ ts else t ∷ insert_task entry ts

-- `while manager.tasks.contains_key(&new_id)`, by rounds.
unfoldable pub id_loop : ℕ → List Registered → ℕ → ℕ
id_loop zero tasks new_id = new_id
id_loop (suc rounds) tasks new_id =
    let rest = id_loop rounds tasks (add_u32 new_id 1) in
    if contains_key tasks new_id then rest else new_id

unfoldable pub next_task_id : List Registered → Option ℕ → ℕ
unfolding id_loop
next_task_id tasks requested_id =
    unwrap_or requested_id (id_loop (length tasks) tasks (add_u32 (as_u32 (length tasks)) 1))

-- HttpResourceIdentity::default
abbrev no_identity : HttpResourceIdentity
no_identity = record { resolved_url = none; entity_tag = none; last_modified = none }

-- Task::new of src/job/mod.rs, with the options that `add_task_with_workers` gives it.
unfoldable pub new_task : HttpRequestOptions → TaskRequest → Task
unfolding for_spec merged
new_task defaults request = record {
  status = unwrap_or request.status Status.pending;
  http_resource_identity = unwrap_or request.resource_identity no_identity;
  sources =
      unwrap_or request.sources (
        for_spec request.spec (some (merged defaults (unwrap_or request.http_request no_options))));
  manifest = none;
  piece_states = unwrap_or request.piece_states [];
  block_states = unwrap_or request.block_states [];
  workers = [];
  total_size = unwrap_or request.total_size 0;
  downloaded_size = unwrap_or request.downloaded_size 0;
  range_requests_supported = false;
  protocol_probe_completed = false;
  total_size_known = is_some request.total_size;
}

-- The closure of `build_restored_workers`, with Worker::new.
unfoldable pub restored_worker : SourceSet → SourceDescriptor → SegmentRequest → Worker
unfolding get from_str
restored_worker sources fallback_source request = record {
  id = request.index;
  source_id = source.id;
  length_known = true;
  start = request.start;
  end = request.end;
  downloaded_size = unwrap_or request.downloaded 0;
  status = unwrap_or (and_then request.status from_str) Status.pending;
}
  where
    source : SourceDescriptor
    source = unwrap_or (and_then request.source_id (get sources)) fallback_source

unfoldable pub build_restored_workers : DownloadSpec → Task → List SegmentRequest → List Worker
unfolding restored_worker primary from_spec
build_restored_workers spec task requests =
    map (restored_worker task.sources (unwrap_or (primary task.sources) (from_spec spec none)))
      requests

-- The task that is made for a request, with its restored workers.
unfoldable pub registered :
    HttpRequestOptions → ℕ → TaskRequest → Option (List SegmentRequest) → Registered
unfolding new_task build_restored_workers
registered defaults id request none = record {
  id = id;
  spec = request.spec;
  task = new_task defaults request;
}
registered defaults id request (some workers) =
    let task = new_task defaults request in
    record {
      id = id;
      spec = request.spec;
      task = record task { workers = build_restored_workers request.spec task workers };
    }

-- What the store answers when `init` saves the task and its checksums.
pub record InitAnswers : Type 0 where
  pub saved_task : Result (Unit {0})
  pub saved_checksums : Result (Unit {0})

abbrev pub init : InitAnswers → Result (Unit {0})
init answers = answers.saved_task >>= λ _. answers.saved_checksums

abbrev pub register :
    ℕ → Registered → List Registered → Result (Unit {0}) → List Registered × Result ℕ
register task_id entry tasks (err e) = (tasks, err e)
register task_id entry tasks (ok _) = (insert_task entry tasks, ok task_id)

unfoldable pub add_task_with_workers :
    HttpRequestOptions
    → InitAnswers
    → TaskRequest
    → Option (List SegmentRequest)
    → List Registered
    → List Registered × Result ℕ
unfolding registered insert_task next_task_id
add_task_with_workers defaults answers request workers tasks =
    if any (has_key (identity_key request.spec)) tasks
    then (tasks, err (other "spec already exists"))
    else register task_id (registered defaults task_id request workers) tasks (init answers)
  where
    task_id : ℕ
    task_id = next_task_id tasks request.id

-- `restore_tasks` on the bundles that the store loaded: a task that cannot be added is skipped.
unfoldable pub restore_tasks :
    Decoders
    → FileSystem
    → HttpRequestOptions
    → (StoredBundle → InitAnswers)
    → List StoredBundle
    → List Registered
    → List Registered
unfolding add_task_with_workers build_restore_plan
restore_tasks decoders files defaults answers [] tasks = tasks
restore_tasks decoders files defaults answers (bundle ∷ bundles) tasks =
    let plan = build_restore_plan decoders files bundle in
    let added =
      add_task_with_workers defaults (answers bundle) plan.task_request plan.workers tasks in
    restore_tasks decoders files defaults answers bundles added.0
