-- ===== src/Examples/Store.antt =====
-- src/storage/mod.rs over src/repository/json_file.rs, with a codec that writes only the empty
-- document: saving a task fails, deleting it is written.
use paradown.Prelude.{
  ℕ, String, Bool, true, false, ◌&&◌, ◌≡◌, refl, sym, ap, subst, none, List, [], ◌∷◌, is_empty,
  if◌then◌else◌, str_eq, arith, Bool-cases, inl, inr,
}
use paradown.Text.{trim, is_empty_text}
use paradown.Failure.{Result, ok, err, other}
use paradown.Storage.{DbDownloadTask}
use paradown.Storage.Service.{SavedTask}
use paradown.Storage.Abstract.{save, delete, apply, apply_all, run, run_all}
use paradown.Repository.Json.{
  JsonRepositoryState, JsonFileRepository, Codec, change, delete_task, save_bundle, delete_pieces,
  delete_blocks, json_repository, new_json_repository, empty_state,
}
use paradown.Repository.Json.Views.{view}
use paradown.Repository.Json.Files.{IsFaithful}
use paradown.Repository.Json.Persisted.{run_all-view}

abbrev all_empty : JsonRepositoryState → Bool
all_empty s =
    is_empty s.tasks
    && is_empty s.workers
    && is_empty s.pieces
    && is_empty s.blocks
    && is_empty s.checksums

abbrev codec : Codec
codec = record {
  encode = λ s. if all_empty s then ok "{}" else err (other "too large");
  decode = λ text. if str_eq text "{}" then ok empty_state else err (other "unknown");
}

nil_of_is_empty : {A : Type 0} (xs : List A) → is_empty xs ≡ true → xs ≡ []
nil_of_is_empty [] h = refl
nil_of_is_empty (x ∷ xs) h = cc

empty_of_all_empty : (s : JsonRepositoryState) → all_empty s ≡ true → empty_state ≡ s
empty_of_all_empty s h =
    let t = nil_of_is_empty s.tasks (ground (arith, h)) in
    let w = nil_of_is_empty s.workers (ground (arith, h)) in
    let p = nil_of_is_empty s.pieces (ground (arith, h)) in
    let k = nil_of_is_empty s.blocks (ground (arith, h)) in
    let c = nil_of_is_empty s.checksums (ground (arith, h)) in
    sym (λ i. record { tasks = t i; workers = w i; pieces = p i; blocks = k i; checksums = c i })

-- What the codec writes is the empty document.
written_text :
    (s : JsonRepositoryState) (text : String)
    → codec.encode s ≡ ok text
    → (empty_state ≡ s) × ("{}" ≡ text)
written_text s text h = elim (Bool-cases (all_empty s)) [
  | inl e ↦ (empty_of_all_empty s e, let g = rw e at h in ap text_or g)
  | inr e ↦ let g = rw e at h in cc
]
  where
    text_or : Result String → String
    text_or (ok t) = t
    text_or (err e) = ""

codec-IsFaithful : IsFaithful codec
unfolding trim
codec-IsFaithful = record {
  not_blank =
      λ s text h. subst (λ t. is_empty_text (trim t) ≡ false) (written_text s text h).1 refl;
  decodes = λ s text h.
      subst (λ t. codec.decode t ≡ ok s) (written_text s text h).1
        (ap ok (written_text s text h).0);
}

abbrev row : DbDownloadTask
row = record {
  id = 7;
  url = "https://example.com/file";
  spec_json = "{}";
  source_set_json = "{}";
  resolved_url = "";
  entity_tag = "";
  last_modified = "";
  file_name = "file";
  file_path = "/tmp/file";
  status = "Pending";
  downloaded_size = 0;
  total_size = none;
  torrent_backend = none;
  torrent_external_id = none;
  torrent_state_json = none;
  torrent_metadata_json = none;
  torrent_resume_data = none;
  created_at = none;
  updated_at = none;
}

abbrev task : SavedTask
task = record { row = row; workers = []; piece_states = []; block_states = []; checksums = [] }

abbrev fresh : JsonFileRepository
fresh = record { state = empty_state; file = none; writes = [] }

run_all-view_example :
    let result =
      run
        (json_repository codec)
        (delete 7)
        (run_all (json_repository codec) (save task ∷ []) fresh) in
    ((id : ℕ)
      → view result.0.state id
        ≡ apply (delete 7) (apply_all (save task ∷ []) (view empty_state)) id)
    × (result.1 ≡ ok tt
        → (again : JsonFileRepository) × (new_json_repository codec (ok tt) result.0.file []
            ≡ ok again)
          × ((id : ℕ)
              → view again.state id
                ≡ apply (delete 7) (apply_all (save task ∷ []) (view empty_state)) id))
run_all-view_example = run_all-view codec (save task ∷ []) (delete 7) fresh codec-IsFaithful

-- The delete is written, and the repository opened again holds no row of the task.
deleted_row :
    let result =
      run
        (json_repository codec)
        (delete 7)
        (run_all (json_repository codec) (save task ∷ []) fresh) in
    (result.1 ≡ ok tt) × ((view result.0.state 7).task ≡ none)
unfolding run run_all view change delete_task save_bundle delete_pieces delete_blocks
deleted_row = (refl, refl)
