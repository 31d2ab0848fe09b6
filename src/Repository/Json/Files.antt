-- ===== src/Repository/Json/Files.antt =====
-- What the writes of src/repository/json_file.rs leave in the file.
use paradown.Prelude.{String, false, ◌≡◌, refl, some, List, [], ◌∷◌}
use paradown.Text.{trim, is_empty_text}
use paradown.Failure.{Result, ok, err}
use paradown.Storage.Contract.{chain}
use paradown.Repository.Json.{
  JsonRepositoryState, JsonFileRepository, Codec, persisted, persist_payload, Write, written,
  failed_write, new_json_repository, change,
}

-- A codec that reads back what it writes, which is never blank.
pub record IsFaithful (codec : Codec) : Type 0 where
  pub not_blank :
      (s : JsonRepositoryState) (text : String)
      → codec.encode s ≡ ok text
      → is_empty_text (trim text) ≡ false
  pub decodes :
      (s : JsonRepositoryState) (text : String)
      → codec.encode s ≡ ok text
      → codec.decode text ≡ ok s

-- Opening the file of a repository again gives its state.
abbrev pub Reopens : Codec → JsonFileRepository → Type 0
Reopens codec r =
    (again : JsonFileRepository) × (new_json_repository codec (ok tt) r.file [] ≡ ok again)
    × (again.state ≡ r.state)

persisted-state :
    (writes : List Write) (payload : String) (r : JsonFileRepository)
    → (persisted writes payload r).0.state ≡ r.state
persisted-state [] payload r = refl
persisted-state (written ∷ writes) payload r = refl
persisted-state (failed_write e left ∷ writes) payload r = refl

pub change-state :
    (codec : Codec) (f : JsonRepositoryState → JsonRepositoryState) (r : JsonFileRepository)
    → (change codec f r).0.state ≡ f r.state
unfolding change
change-state codec f r = by_payload (codec.encode (f r.state))
  where
    by_payload :
        (payload : Result String)
        → (persist_payload payload (record r { state = f r.state })).0.state ≡ f r.state
    by_payload (err e) = refl
    by_payload (ok payload) = persisted-state r.writes payload (record r { state = f r.state })

module _ (codec : Codec) (faithful : IsFaithful codec) where
  written-Reopens :
      (r : JsonFileRepository) (payload : String)
      → codec.encode r.state ≡ ok payload
      → r.file ≡ some payload
      → Reopens codec r
  unfolding new_json_repository
  written-Reopens r payload e at = (
    record { state = r.state; file = r.file; writes = [] },
    rw (at, faithful.not_blank r.state payload e, faithful.decodes r.state payload e),
    refl,
  )

  persisted-Reopens :
      (writes : List Write) (payload : String) (r : JsonFileRepository)
      → codec.encode r.state ≡ ok payload
      → (persisted writes payload r).1 ≡ ok tt
      → Reopens codec (persisted writes payload r).0
  persisted-Reopens [] payload r e o =
      written-Reopens (record r { file = some payload }) payload e refl
  persisted-Reopens (written ∷ writes) payload r e o =
      written-Reopens (record r { file = some payload; writes = writes }) payload e refl
  persisted-Reopens (failed_write x left ∷ writes) payload r e o = cc

  pub change-Reopens :
      (f : JsonRepositoryState → JsonRepositoryState) (r : JsonFileRepository)
      → (change codec f r).1 ≡ ok tt
      → Reopens codec (change codec f r).0
  unfolding change
  change-Reopens f r = by_payload (codec.encode (f r.state)) refl
    where
      changed : JsonFileRepository
      changed = record r { state = f r.state }

      by_payload :
          (payload : Result String)
          → codec.encode (f r.state) ≡ payload
          → (persist_payload payload changed).1 ≡ ok tt
          → Reopens codec (persist_payload payload changed).0
      by_payload (err e) h o = cc
      by_payload (ok payload) h o = persisted-Reopens r.writes payload changed h o

  pub chain-Reopens :
      (first : JsonFileRepository × Result (Unit {0}))
      (second : JsonFileRepository → JsonFileRepository × Result (Unit {0}))
      → ((r : JsonFileRepository) → (second r).1 ≡ ok tt → Reopens codec (second r).0)
      → (chain first second).1 ≡ ok tt
      → Reopens codec (chain first second).0
  chain-Reopens (r, err e) second h o = cc
  chain-Reopens (r, ok _) second h o = h r o

pub chain-state :
    (s : JsonRepositoryState) (first : JsonFileRepository × Result (Unit {0}))
    (second : JsonFileRepository → JsonFileRepository × Result (Unit {0}))
    → first.0.state ≡ s
    → ((r : JsonFileRepository) → r.state ≡ s → (second r).0.state ≡ s)
    → (chain first second).0.state ≡ s
chain-state s (r, err e) second h k = h
chain-state s (r, ok _) second h k = k r h
