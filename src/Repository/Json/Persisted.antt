-- ===== src/Repository/Json/Persisted.antt =====
-- A run of the repository of src/repository/json_file.rs against an abstract store, and what its file
-- holds for the next run of the program.
use mathlib.Core.Path.{fun_ext}
use paradown.Prelude.{ℕ, ◌≡◌, refl, ◌∙◌, ap, List, [], ◌∷◌}
use paradown.Failure.{ok}
use paradown.Storage.Service.{bundle_of}
use paradown.Storage.Abstract.{Command, save, delete, apply, apply_all, run, run_all}
use paradown.Repository.Json.{
  JsonRepositoryState, JsonFileRepository, Codec, json_repository, new_json_repository, change,
  save_bundle, delete_task, delete_pieces, delete_blocks,
}
use paradown.Repository.Json.Views.{
  view, view-save_bundle, view-delete_task, delete_pieces-delete_task, delete_blocks-delete_task,
}
use paradown.Repository.Json.Files.{
  IsFaithful, Reopens, change-state, change-Reopens, chain-Reopens, chain-state,
}

run-state :
    (codec : Codec) (c : Command) (r : JsonFileRepository) (id : ℕ)
    → view (run (json_repository codec) c r).0.state id ≡ apply c (view r.state) id
unfolding run
run-state codec (save task) r id =
    ap (λ s. view s id) (change-state codec (save_bundle (bundle_of task)) r)
    ∙ view-save_bundle task r.state id
run-state codec (delete task_id) r id =
    ap (λ s. view s id)
      (chain-state deleted (change codec (delete_task task_id) r) _
        (change-state codec (delete_task task_id) r)
        (λ r1 e1.
          chain-state deleted (change codec (delete_pieces task_id) r1) _
            (change-state codec (delete_pieces task_id) r1
              ∙ ap (delete_pieces task_id) e1
              ∙ no_pieces)
            (λ r2 e2.
              change-state codec (delete_blocks task_id) r2
              ∙ ap (delete_blocks task_id) e2
              ∙ no_blocks)))
    ∙ view-delete_task task_id r.state id
  where
    deleted : JsonRepositoryState
    deleted = delete_task task_id r.state

    no_pieces : delete_pieces task_id deleted ≡ deleted
    no_pieces = delete_pieces-delete_task task_id r.state

    no_blocks : delete_blocks task_id deleted ≡ deleted
    no_blocks = delete_blocks-delete_task task_id r.state

run_all-state :
    (codec : Codec) (cs : List Command) (r : JsonFileRepository) (id : ℕ)
    → view (run_all (json_repository codec) cs r).state id ≡ apply_all cs (view r.state) id
unfolding run_all apply_all
run_all-state codec [] r id = refl
run_all-state codec (c ∷ cs) r id =
    run_all-state codec cs (run (json_repository codec) c r).0 id
    ∙ ap (λ rows. apply_all cs rows id) (fun_ext (run-state codec c r))

run-Reopens :
    (codec : Codec) (c : Command) (r : JsonFileRepository)
    → IsFaithful codec
    → (run (json_repository codec) c r).1 ≡ ok tt
    → Reopens codec (run (json_repository codec) c r).0
unfolding run
run-Reopens codec (save task) r faithful =
    change-Reopens codec faithful (save_bundle (bundle_of task)) r
run-Reopens codec (delete task_id) r faithful =
    chain-Reopens codec faithful (change codec (delete_task task_id) r) _ λ r1.
      chain-Reopens codec faithful (change codec (delete_pieces task_id) r1) _
        λ r2. change-Reopens codec faithful (delete_blocks task_id) r2

-- The JSON repository implements the abstract store. Whatever tasks are saved and deleted through
-- the store, one after the other, and whatever the writes of the file do: the repository holds
-- for every task what the abstract store holds, its rows in their orders. If the last call
-- succeeds, then opening the file again, with a codec that reads back what it writes and never
-- writes a blank text, gives a repository that holds the same.
pub run_all-view :
    (codec : Codec) (cs : List Command) (last : Command) (r : JsonFileRepository)
    → IsFaithful codec
    → let result = run (json_repository codec) last (run_all (json_repository codec) cs r) in
      ((id : ℕ) → view result.0.state id ≡ apply last (apply_all cs (view r.state)) id)
      × (result.1 ≡ ok tt
          → (again : JsonFileRepository) × (new_json_repository codec (ok tt) result.0.file []
              ≡ ok again)
            × ((id : ℕ) → view again.state id ≡ apply last (apply_all cs (view r.state)) id))
run_all-view codec cs last r faithful =
    (held, λ o. reopened (run-Reopens codec last before faithful o))
  where
    before : JsonFileRepository
    before = run_all (json_repository codec) cs r

    held :
        (id : ℕ)
        → view (run (json_repository codec) last before).0.state id
          ≡ apply last (apply_all cs (view r.state)) id
    held id =
        run-state codec last before id
        ∙ ap (λ rows. apply last rows id) (fun_ext (run_all-state codec cs r))

    reopened :
        Reopens codec (run (json_repository codec) last before).0
        → (again : JsonFileRepository) × (new_json_repository codec
              (ok tt)
              (run (json_repository codec) last before).0.file
              []
            ≡ ok again)
          × ((id : ℕ) → view again.state id ≡ apply last (apply_all cs (view r.state)) id)
    reopened (again, e, same) = (again, e, λ id. ap (λ s. view s id) same ∙ held id)
