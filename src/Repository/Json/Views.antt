-- ===== src/Repository/Json/Views.antt =====
-- What the calls of src/repository/json_file.rs leave of the rows of a task.
use paradown.Prelude.{
  ℕ, Bool, true, false, not, ◌≡◌, refl, ◌∙◌, some, none, List, [], ◌∷◌, ◌++◌, arith, ◌==◌,
  if◌then◌else◌, find, filter, map, Bool-cases, inl, inr, All, filter-append, append-nil,
}
use paradown.Storage.{
  DbDownloadTask, DbDownloadWorker, DbDownloadPiece, DbDownloadBlock, DbDownloadChecksum,
}
use paradown.Storage.Mapping.{piece_states_to_db, block_states_to_db, checksum_to_db}
use paradown.Storage.Workers.{LiveWorker, worker_to_db}
use paradown.Checksum.{Checksum}
use paradown.Piece.{PieceState, BlockState}
use paradown.Storage.Service.{SavedTask, bundle_of}
use paradown.Storage.Abstract.{Rows, sorted_rows, save, delete, apply}
use paradown.Repository.Json.{
  JsonRepositoryState, without, load_task, load_workers, load_pieces, load_blocks, load_checksums,
  save_bundle, delete_task, delete_pieces, delete_blocks,
}

-- What the repository holds of a task.
unfoldable pub view : JsonRepositoryState → ℕ → Rows
unfolding load_task load_workers load_pieces load_blocks load_checksums
view s id = record {
  task = load_task id s;
  workers = load_workers id s;
  pieces = load_pieces id s;
  blocks = load_blocks id s;
  checksums = load_checksums id s;
}

module _ {ℓ} {A : Type ℓ} (task_of : A → ℕ) where
  filter-without :
      (id other : ℕ) (rows : List A)
      → filter (λ row. task_of row == other) (without task_of id rows)
        ≡ (if other == id then [] else filter (λ row. task_of row == other) rows)
  filter-without id other [] = ground arith
  filter-without id other (row ∷ rows) = ground (arith, filter-without id other rows)

  filter-belonging :
      (id other : ℕ) (rows : List A)
      → All (λ row. task_of row ≡ id) rows
      → filter (λ row. task_of row == other) rows ≡ (if other == id then rows else [])
  filter-belonging id other [] h = ground arith
  filter-belonging id other (row ∷ rows) h = ground (arith, filter-belonging id other rows h.1, h.0)

  -- Replacing the rows of a task.
  filter-replaced :
      (id other : ℕ) (old rows : List A)
      → All (λ row. task_of row ≡ id) rows
      → filter (λ row. task_of row == other) (without task_of id old ++ rows)
        ≡ (if other == id then rows else filter (λ row. task_of row == other) old)
  filter-replaced id other old rows h =
      filter-append (λ row. task_of row == other) (without task_of id old) rows
      ∙ rw (filter-without id other old, filter-belonging id other rows h) (joined (other == id))
    where
      joined :
          (b : Bool)
          → (if b then [] else filter (λ row. task_of row == other) old) ++ (if b then rows else [])
            ≡ (if b then rows else filter (λ row. task_of row == other) old)
      joined true = refl
      joined false = append-nil (filter (λ row. task_of row == other) old)

  find-without :
      (id other : ℕ) (rows : List A)
      → find (λ row. task_of row == other) (without task_of id rows)
        ≡ (if other == id then none else find (λ row. task_of row == other) rows)
  find-without id other [] = ground arith
  find-without id other (row ∷ rows) = ground (arith, find-without id other rows)

  find-replaced :
      (id other : ℕ) (old : List A) (row : A)
      → task_of row ≡ id
      → find (λ row. task_of row == other) (without task_of id old ++ row ∷ [])
        ≡ (if other == id then some row else find (λ row. task_of row == other) old)
  find-replaced id other [] row e = ground arith
  find-replaced id other (x ∷ old) row e = ground (arith, find-replaced id other old row e)

-- The rows of a saved task are its own.
bundle-workers :
    (task : SavedTask)
    → All (λ (w : DbDownloadWorker). w.task_id ≡ task.row.id) (bundle_of task).workers
unfolding bundle_of
bundle-workers task = own task.workers
  where
    own :
        (ws : List LiveWorker)
        → All
            (λ (w : DbDownloadWorker). w.task_id ≡ task.row.id)
            (map (worker_to_db task.row.id) ws)
    own [] = tt
    own (w ∷ ws) = (refl, own ws)

bundle-pieces :
    (task : SavedTask)
    → All (λ (p : DbDownloadPiece). p.task_id ≡ task.row.id) (bundle_of task).pieces
unfolding bundle_of
bundle-pieces task = own task.piece_states
  where
    own :
        (ps : List PieceState)
        → All (λ (p : DbDownloadPiece). p.task_id ≡ task.row.id) (piece_states_to_db task.row.id ps)
    own [] = tt
    own (p ∷ ps) = (refl, own ps)

bundle-blocks :
    (task : SavedTask)
    → All (λ (k : DbDownloadBlock). k.task_id ≡ task.row.id) (bundle_of task).blocks
unfolding bundle_of
bundle-blocks task = own task.block_states
  where
    own :
        (ks : List BlockState)
        → All (λ (k : DbDownloadBlock). k.task_id ≡ task.row.id) (block_states_to_db task.row.id ks)
    own [] = tt
    own (k ∷ ks) = (refl, own ks)

bundle-checksums :
    (task : SavedTask)
    → All (λ (c : DbDownloadChecksum). c.task_id ≡ task.row.id) (bundle_of task).checksums
unfolding bundle_of
bundle-checksums task = own task.checksums
  where
    own :
        (cs : List Checksum)
        → All
            (λ (c : DbDownloadChecksum). c.task_id ≡ task.row.id)
            (map (λ checksum. checksum_to_db checksum task.row.id) cs)
    own [] = tt
    own (c ∷ cs) = (refl, own cs)

pub view-save_bundle :
    (task : SavedTask) (s : JsonRepositoryState) (id : ℕ)
    → view (save_bundle (bundle_of task) s) id ≡ apply (save task) (view s) id
unfolding view save_bundle apply sorted_rows
view-save_bundle task s id =
    let b = bundle_of task in
    let t = find-replaced (λ (t : DbDownloadTask). t.id) b.task.id id s.tasks b.task refl in
    let w =
      filter-replaced (λ (w : DbDownloadWorker). w.task_id) b.task.id id s.workers b.workers
        (bundle-workers task) in
    let p =
      filter-replaced (λ (p : DbDownloadPiece). p.task_id) b.task.id id s.pieces b.pieces
        (bundle-pieces task) in
    let k =
      filter-replaced (λ (k : DbDownloadBlock). k.task_id) b.task.id id s.blocks b.blocks
        (bundle-blocks task) in
    let c =
      filter-replaced (λ (c : DbDownloadChecksum). c.task_id) b.task.id id s.checksums b.checksums
        (bundle-checksums task) in
    elim (Bool-cases (id == task.row.id)) [
      | inl e ↦ rw (t, w, p, k, c, e)
      | inr e ↦ rw (t, w, p, k, c, e)
    ]

pub view-delete_task :
    (task_id : ℕ) (s : JsonRepositoryState) (id : ℕ)
    → view (delete_task task_id s) id ≡ apply (delete task_id) (view s) id
unfolding view delete_task apply
view-delete_task task_id s id =
    let t = find-without (λ (t : DbDownloadTask). t.id) task_id id s.tasks in
    let w = filter-without (λ (w : DbDownloadWorker). w.task_id) task_id id s.workers in
    let p = filter-without (λ (p : DbDownloadPiece). p.task_id) task_id id s.pieces in
    let k = filter-without (λ (k : DbDownloadBlock). k.task_id) task_id id s.blocks in
    let c = filter-without (λ (c : DbDownloadChecksum). c.task_id) task_id id s.checksums in
    elim (Bool-cases (id == task_id)) [
      | inl e ↦ rw (t, w, p, k, c, e)
      | inr e ↦ rw (t, w, p, k, c, e)
    ]

filter-filter : {A : Type 0} (p : A → Bool) (xs : List A) → filter p (filter p xs) ≡ filter p xs
filter-filter p [] = refl
filter-filter p (x ∷ xs) = elim (Bool-cases (p x)) [
  | inl e ↦ rw (e, e, filter-filter p xs)
  | inr e ↦ rw (e, filter-filter p xs)
]

pub delete_pieces-delete_task :
    (id : ℕ) (s : JsonRepositoryState) → delete_pieces id (delete_task id s) ≡ delete_task id s
unfolding delete_pieces delete_task
delete_pieces-delete_task id s =
    rw (filter-filter (λ (p : DbDownloadPiece). not (p.task_id == id)) s.pieces)

pub delete_blocks-delete_task :
    (id : ℕ) (s : JsonRepositoryState) → delete_blocks id (delete_task id s) ≡ delete_task id s
unfolding delete_blocks delete_task
delete_blocks-delete_task id s =
    rw (filter-filter (λ (k : DbDownloadBlock). not (k.task_id == id)) s.blocks)
