-- ===== src/Persist/Save.antt =====
-- The snapshot file is replaced as a whole or not at all, and dirOf.
use study_project_metrics_an.Base.{
  String, ◌≡◌, refl, ◌≢◌, ◌⊎◌, Option, none, some, List, [], arith, All, Option-cases, inl, inr,
}
use study_project_metrics_an.Base.Assoc.{
  lookup, lookup-insert_self, lookup-insert_ne, lookup-remove_ne, remove-insert,
}
use study_project_metrics_an.Wire.{Bytes, Json}
use study_project_metrics_an.Storage.Memory.{MetricsStorage, Visit}
use study_project_metrics_an.Persist.{
  Disk, Faults, final, SaveError, marshal, snapshot, write_temp, write_file, save_metrics,
}

-- os.CreateTemp opens a file that is not there yet.
abbrev pub IsFresh : Option String → String → Disk → Type 0
IsFresh none path disk = Unit
IsFresh (some tmp) path disk = (tmp ≢ path) × (lookup tmp disk ≡ none)

-- The snapshot file is as before, or holds the whole new content.
abbrev pub IsWhole : String → Option Bytes → Bytes → Disk → Type 0
IsWhole path old content d = (lookup path d ≡ old) ⊎ (lookup path d ≡ some content)

module _ (faults : Faults) (path : String) (content : Bytes) where
  write_temp-IsWhole :
      (tmp : String) (disk : Disk)
      → tmp ≢ path
      → All (IsWhole path (lookup path disk) content) (write_temp faults path tmp content disk).0
  unfolding write_temp
  write_temp-IsWhole tmp disk ne =
      grind (arith, lookup-insert_ne, lookup-remove_ne, lookup-insert_self)

  write_file-IsWhole :
      (disk : Disk)
      → IsFresh faults.temp_name path disk
      → All (IsWhole path (lookup path disk) content) (write_file faults path content disk).0
  unfolding write_file
  write_file-IsWhole disk fresh = elim (Option-cases faults.temp_name) [
    | inl failed ↦ rw (failed, write_file) tt
    | inr (tmp, made) ↦ rw (made, write_file) (write_temp-IsWhole tmp disk ((rw made at fresh).0))
  ]

-- What a save has done when it returns: without an error the snapshot file holds the new content,
-- with an error it is as before, and every other file is as before.
pub record IsSaved (path : String) (content : Bytes) (disk : Disk)
    (r : List Disk × Option SaveError) : Type 0 where
  pub written : r.1 ≡ none → lookup path (final disk r.0) ≡ some content
  pub kept : (e : SaveError) → r.1 ≡ some e → lookup path (final disk r.0) ≡ lookup path disk
  pub others : (j : String) → j ≢ path → lookup j (final disk r.0) ≡ lookup j disk

module _ (faults : Faults) (path : String) (content : Bytes) where
  write_temp-IsSaved :
      (tmp : String) (disk : Disk)
      → tmp ≢ path
      → lookup tmp disk ≡ none
      → IsSaved path content disk (write_temp faults path tmp content disk)
  unfolding write_temp
  write_temp-IsSaved tmp disk ne new = record {
    written = λ h. grind (arith, lookup-insert_self);
    kept = λ e h. grind (arith, lookup-insert_ne, lookup-remove_ne);
    others = λ j other. grind (arith, remove-insert, lookup-insert_ne);
  }

  write_file-IsSaved :
      (disk : Disk)
      → IsFresh faults.temp_name path disk
      → IsSaved path content disk (write_file faults path content disk)
  unfolding write_file
  write_file-IsSaved disk fresh = elim (Option-cases faults.temp_name) [
    | inl failed ↦
        rw (failed, write_file)
          (record { written = λ h. cc; kept = λ e h. refl; others = λ j h. refl })
    | inr (tmp, made) ↦
        let (ne, new) = rw made at fresh in
        rw (made, write_file) (write_temp-IsSaved tmp disk ne new)
  ]

module _ (json : Json) (faults : Faults) (copying ranging : Visit) (path : String)
    (store : MetricsStorage) (disk : Disk) where
  -- A kill at any point of a save leaves the old file or the whole new one: if the snapshot
  -- encodes and the temporary file is fresh, then in each state that the disk goes through the
  -- snapshot file reads as before or holds the complete new content.
  pub save_metrics-IsWhole :
      (content : Bytes)
      → json.encode_metrics (snapshot copying ranging store) ≡ some content
      → IsFresh faults.temp_name path disk
      → All
          (IsWhole path (lookup path disk) content)
          (save_metrics json faults copying ranging path store disk).0
  unfolding save_metrics
  save_metrics-IsWhole content e fresh =
      rw (e, save_metrics) (write_file-IsWhole faults path content disk fresh)

  -- If the snapshot encodes and the temporary file is fresh, a save without an error has written
  -- the new content to the snapshot file, one with an error has left it as it was, and either way
  -- every other file is as before: no temporary file stays.
  pub save_metrics-IsSaved :
      (content : Bytes)
      → json.encode_metrics (snapshot copying ranging store) ≡ some content
      → IsFresh faults.temp_name path disk
      → IsSaved path content disk (save_metrics json faults copying ranging path store disk)
  unfolding save_metrics
  save_metrics-IsSaved content e fresh =
      rw (e, save_metrics) (write_file-IsSaved faults path content disk fresh)

  pub save_metrics-marshal :
      json.encode_metrics (snapshot copying ranging store) ≡ none
      → save_metrics json faults copying ranging path store disk ≡ ([], some marshal)
  unfolding save_metrics
  save_metrics-marshal e = rw (e, save_metrics)

  pub encodes_of_saved :
      (save_metrics json faults copying ranging path store disk).1 ≡ none
      → (content : Bytes) × (json.encode_metrics (snapshot copying ranging store) ≡ some content)
  encodes_of_saved h = elim (Option-cases (json.encode_metrics (snapshot copying ranging store))) [
    | inl failed ↦ cc (save_metrics-marshal failed)
    | inr found ↦ found
  ]
