-- ===== src/Artifacts/Stored.antt =====
-- What an upload stores: `create_from_runner_upload` of apps/api/apps/artifacts/services.py.
use Prim.Native.Nat.{ℕ}
use Prim.Native.String.{String}
use mathlib.Core.Path.{◌≡◌, refl, sym, ap, subst, ◌∙◌}
use mathlib.Core.Logic.{inl, inr}
use mathlib.Core.Bool.{Bool, true, false}
use mathlib.Core.Option.{Option, none}
use mathlib.Core.List.{List, [], ◌∷◌, ◌++◌}
use runbook_platform.Prelude.Tests.{nat_eq, eq_refl, Bool-cases, Option-cases, if◌then◌else◌}
use runbook_platform.Prelude.Tables.{select}
use runbook_platform.Prelude.Codes.{codes_beq}
use runbook_platform.Prelude.Effects.{Result, ok, err, Error, continue}
use runbook_platform.Prelude.Results.{Gives}
use runbook_platform.Changes.Completion.{ChangeGuards, assert_execution_change_binding_ready}
use runbook_platform.Executions.Model.{Execution, ExecutionStep}
use runbook_platform.Executions.Steps.{check_ownership}
use runbook_platform.Artifacts.Model.{
  Artifact, Settings, Upload, StoredFile, Depot, Conditions, SaveOutcome, saved, unsaved, cut_off,
}
use runbook_platform.Artifacts.Checks.{Checked, check_upload, day_of}
use runbook_platform.Store.{World}
use runbook_platform.Artifacts.Names.{sanitize_filename}
use runbook_platform.Artifacts.Upload.{
  create_from_runner_upload, upload_checked, store_upload, insert_artifact, or_deleted,
  finish_upload, new_artifact, generate_storage_key, is_used, write_file, remove_file,
  increment_daily,
}
use runbook_platform.Artifacts.Quotas.{Accepted, check_upload-Accepted}

codes_beq_refl : (xs : List ℕ) → codes_beq xs xs ≡ true
unfolding codes_beq
codes_beq_refl [] = refl
codes_beq_refl (x ∷ xs) = rw (eq_refl x) (codes_beq_refl xs)

remove_file-twice :
    (key : List ℕ) (fs : List StoredFile)
    → remove_file key (remove_file key fs) ≡ remove_file key fs
unfolding remove_file select
remove_file-twice key [] = refl
remove_file-twice key (f ∷ fs) = elim (Bool-cases (codes_beq f.key key)) [
  | inl e ↦ rw e (remove_file-twice key fs)
  | inr e ↦ rw (e, e) (ap (λ t. f ∷ t) (remove_file-twice key fs))
]

remove_file-append :
    (key content : List ℕ) (fs : List StoredFile)
    → remove_file key (fs ++ record { key = key; content = content } ∷ []) ≡ remove_file key fs
unfolding remove_file select
remove_file-append key content [] = rw (codes_beq_refl key) refl
remove_file-append key content (f ∷ fs) = elim (Bool-cases (codes_beq f.key key)) [
  | inl e ↦ rw e (remove_file-append key content fs)
  | inr e ↦ rw e (ap (λ t. f ∷ t) (remove_file-append key content fs))
]

remove_file-write_file :
    (key content : List ℕ) (fs : List StoredFile)
    → remove_file key (write_file key content fs) ≡ remove_file key fs
unfolding write_file
remove_file-write_file key content fs =
    remove_file-append key content (remove_file key fs) ∙ remove_file-twice key fs

-- A depot with the same artifacts, the same counts of the day and, apart from `key`, the same files.
pub record SameStock (key : List ℕ) (d d' : Depot) : Type 0 where
  pub same_artifacts : d'.artifacts ≡ d.artifacts
  pub same_daily : d'.daily ≡ d.daily
  pub same_files : remove_file key d'.files ≡ remove_file key d.files

-- The artifact stands in the table, its content under its key, its size in the day's count.
pub record InStock (a : Artifact) (content : List ℕ) (u : Upload) (d d' : Depot) : Type 0 where
  pub is_listed : d'.artifacts ≡ d.artifacts ++ a ∷ []
  pub is_written : d'.files ≡ write_file a.storage_key content d.files
  pub is_counted : d'.daily ≡ increment_daily u.runner_id (day_of u.now) a.size_bytes d.daily

deleted-SameStock :
    (can_delete : Bool) (key content : List ℕ) (d : Depot)
    → SameStock key d (
        if can_delete
        then record d { files = remove_file key (write_file key content d.files) }
        else record d { files = write_file key content d.files })
deleted-SameStock true key content d = record {
  same_artifacts = refl;
  same_daily = refl;
  same_files =
      remove_file-twice key (write_file key content d.files)
      ∙ remove_file-write_file key content d.files;
}
deleted-SameStock false key content d = record {
  same_artifacts = refl;
  same_daily = refl;
  same_files = remove_file-write_file key content d.files;
}

StockAnswer : Upload → Artifact → List ℕ → Depot → Result Artifact × Depot → Type 0
StockAnswer u a content d (ok b, d') = (b ≡ a) × InStock a content u d d'
StockAnswer u a content d (err x, d') = SameStock a.storage_key d d'

store_upload-StockAnswer :
    (save : SaveOutcome) (k : Conditions) (u : Upload) (a : Artifact) (content : List ℕ) (d : Depot)
    → StockAnswer u a content d (store_upload save k u a content d)
unfolding store_upload insert_artifact or_deleted finish_upload StockAnswer
store_upload-StockAnswer unsaved k u a content d = record {
  same_artifacts = refl;
  same_daily = refl;
  same_files = refl;
}
store_upload-StockAnswer (cut_off part) k u a content d = record {
  same_artifacts = refl;
  same_daily = refl;
  same_files = remove_file-write_file a.storage_key part d.files;
}
store_upload-StockAnswer saved k u a content d = elim (Option-cases k.insertion) [
  | inr (x, e) ↦ rw e (deleted-SameStock k.can_delete a.storage_key content d)
  | inl e ↦ rw e (elim (Bool-cases (is_used a d.artifacts)) [
    | inl f ↦ rw f (deleted-SameStock k.can_delete a.storage_key content d)
    | inr f ↦ rw f (refl, record { is_listed = refl; is_written = refl; is_counted = refl })
  ])
]

module _ (guards : ChangeGuards) (is_word_beyond : ℕ → Bool) (sha256 : List ℕ → String)
    (c : Settings) (e : Execution) (s : Option ExecutionStep) (u : Upload) (k : Conditions) where
  -- What an upload that returned was, and what it stored.
  pub record Uploaded (d : Depot) (a : Artifact) (d' : Depot) : Type 0 where
    pub is_owner : check_ownership e u.runner_id u.claim_token ≡ none
    pub checks : Checked
    pub is_accepted : Accepted sha256 c e s u d checks
    pub is_described : a ≡ new_artifact is_word_beyond e s u checks
    pub is_stocked : InStock a checks.file.content u d d'

  abbrev own_key : List ℕ
  own_key = generate_storage_key e s u.fresh_id (sanitize_filename is_word_beyond u.name)

  Answer : Depot → Result Artifact × Depot → Type 0
  Answer d (ok a, d') = Uploaded d a d'
  Answer d (err x, d') = SameStock own_key d d'

  stocked-Answer :
      (d : Depot) (w : World) (h : Checked) (r : Result Artifact × Depot)
      → check_ownership e u.runner_id u.claim_token ≡ none
      → Accepted sha256 c e s u d h
      → StockAnswer u
          (new_artifact is_word_beyond e s u h)
          h.file.content
          (record d { world = w })
          r
      → Answer d r
  unfolding StockAnswer Answer new_artifact
  stocked-Answer d w h (ok a, d') own accepted t = record {
    is_owner = own;
    checks = h;
    is_accepted = accepted;
    is_described = t.0;
    is_stocked =
        subst (λ b. InStock b h.file.content u d d') (sym t.0)
          (record {
            is_listed = t.1.is_listed;
            is_written = t.1.is_written;
            is_counted = t.1.is_counted;
          });
  }
  stocked-Answer d w h (err x, d') own accepted t = record {
    same_artifacts = t.same_artifacts;
    same_daily = t.same_daily;
    same_files = t.same_files;
  }

  -- The database may have changed in between, the rest of the depot has not.
  upload_checked-Answer :
      (d : Depot) (w : World) (r : Result Checked)
      → check_ownership e u.runner_id u.claim_token ≡ none
      → Gives (Accepted sha256 c e s u d) r
      → Answer d (upload_checked guards is_word_beyond sha256 c e s u k r (record d { world = w }))
  unfolding upload_checked Answer Gives
  upload_checked-Answer d w (err x) own h = record {
    same_artifacts = refl;
    same_daily = refl;
    same_files = refl;
  }
  upload_checked-Answer d w (ok h) own accepted =
      let a = new_artifact is_word_beyond e s u h in
      stocked-Answer d w h (store_upload k.save k u a h.file.content (record d { world = w })) own
        accepted (store_upload-StockAnswer k.save k u a h.file.content (record d { world = w }))

  -- The checks read nothing of the database, so its changes do not matter to them.
  check_upload-world :
      (d : Depot) (w : World)
      → Gives (Accepted sha256 c e s u d) (check_upload sha256 c e s u (record d { world = w }))
  unfolding check_upload
  check_upload-world d w = check_upload-Accepted sha256 c e s u d

  bound-Answer :
      (d : Depot) (r : Result (Unit {0}) × World)
      → check_ownership e u.runner_id u.claim_token ≡ none
      → Answer d (
          continue r.0
            (λ x v.
              upload_checked guards is_word_beyond sha256 c e s u k
                (check_upload sha256 c e s u v)
                v)
            (record d { world = r.1 }))
  unfolding Answer
  bound-Answer d (ok x, w) own =
      upload_checked-Answer d w (check_upload sha256 c e s u (record d { world = w })) own
        (check_upload-world d w)
  bound-Answer d (err x, w) own = record {
    same_artifacts = refl;
    same_daily = refl;
    same_files = refl;
  }

  create_from_runner_upload-Answer :
      (d : Depot) → Answer d (create_from_runner_upload guards is_word_beyond sha256 c e s u k d)
  unfolding create_from_runner_upload Answer
  create_from_runner_upload-Answer d =
      elim (Option-cases (check_ownership e u.runner_id u.claim_token)) [
        | inr (x, h) ↦ rw h (record { same_artifacts = refl; same_daily = refl; same_files = refl })
        | inl h ↦ rw h (
            bound-Answer d
              (assert_execution_change_binding_ready guards e u.runner_id u.claim_token u.now
                d.world)
              h)
      ]

  -- An upload that returns was made by the runner that holds the claim, on an open execution and a
  -- step of it, with a file within every limit and of the digest that was declared, if one was; the
  -- artifact is listed, its content stands under its key and its size counts for the day.
  pub create_from_runner_upload-Uploaded :
      (d : Depot) (a : Artifact) (d' : Depot)
      → create_from_runner_upload guards is_word_beyond sha256 c e s u k d ≡ (ok a, d')
      → Uploaded d a d'
  unfolding Answer
  create_from_runner_upload-Uploaded d a d' h =
      subst (Answer d) h (create_from_runner_upload-Answer d)

  -- An upload that raises leaves the artifacts, the counts of the day and every file but the one
  -- under its own new key as they were.
  pub create_from_runner_upload-SameStock :
      (d : Depot) (x : Error) (d' : Depot)
      → create_from_runner_upload guards is_word_beyond sha256 c e s u k d ≡ (err x, d')
      → SameStock own_key d d'
  unfolding Answer
  create_from_runner_upload-SameStock d x d' h =
      subst (Answer d) h (create_from_runner_upload-Answer d)
