-- ===== src/Storage/Contract.antt =====
-- src/repository/contract.rs: what a repository does. `S` is its state, and an operation that changes
-- it gives the new one also when it fails.
use paradown.Prelude.{ℕ, Option, List, [], ◌∷◌}
use paradown.Failure.{Result, ok, err}
use paradown.Storage.{
  DbDownloadTask, DbDownloadWorker, DbDownloadPiece, DbDownloadBlock, DbDownloadChecksum,
  StoredBundle,
}

-- A call that changes a state.
abbrev pub Call {ℓ} : Type ℓ → Type ℓ
Call S = S → S × Result (Unit {0})

-- The required methods of the trait.
pub record Operations {ℓ} (S : Type ℓ) : Type ℓ where
  pub load_tasks : S → Result (List DbDownloadTask)
  pub load_task : ℕ → S → Result (Option DbDownloadTask)
  pub save_task : DbDownloadTask → Call S
  pub delete_task : ℕ → Call S
  pub load_workers : ℕ → S → Result (List DbDownloadWorker)
  pub load_worker : ℕ → S → Result (Option DbDownloadWorker)
  pub save_worker : DbDownloadWorker → Call S
  pub delete_workers : ℕ → Call S
  pub load_pieces : ℕ → S → Result (List DbDownloadPiece)
  pub save_pieces : ℕ → List DbDownloadPiece → Call S
  pub delete_pieces : ℕ → Call S
  pub load_blocks : ℕ → S → Result (List DbDownloadBlock)
  pub save_blocks : ℕ → List DbDownloadBlock → Call S
  pub delete_blocks : ℕ → Call S
  pub load_checksums : ℕ → S → Result (List DbDownloadChecksum)
  pub load_checksum : ℕ → S → Result (Option DbDownloadChecksum)
  pub save_checksum : DbDownloadChecksum → Call S
  pub delete_checksums : ℕ → Call S

pub record Repository {ℓ} (S : Type ℓ) : Type ℓ where
  pub operations : Operations S
  pub save_bundle : StoredBundle → Call S

module _ {ℓ} {S : Type ℓ} where
  -- `first.await?; second.await`
  abbrev pub chain : S × Result (Unit {0}) → Call S → S × Result (Unit {0})
  chain (s, err e) second = (s, err e)
  chain (s, ok _) second = second s

  -- `for row in rows { operation(row).await?; } Ok(())`
  unfoldable pub for_each {κ} : {A : Type κ} → (A → Call S) → List A → Call S
  for_each operation [] s = (s, ok tt)
  for_each operation (row ∷ rows) s = chain (operation row s) (for_each operation rows)

  -- The default of `save_bundle`.
  unfoldable pub save_bundle_by : Operations S → StoredBundle → Call S
  unfolding for_each
  save_bundle_by ops b s =
      let id = b.task.id in
      chain (ops.save_task b.task s) λ s. chain (ops.delete_workers id s) λ s.
        chain (for_each ops.save_worker b.workers s) λ s. chain (ops.save_pieces id b.pieces s) λ s.
          chain (ops.save_blocks id b.blocks s)
            λ s. chain (ops.delete_checksums id s) λ s. for_each ops.save_checksum b.checksums s
