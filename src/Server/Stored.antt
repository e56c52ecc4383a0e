-- ===== src/Server/Stored.antt =====
-- What holds in every state of a server from its start to its end.
use mathlib.Core.Path.{subst}
use study_project_metrics_an.Base.{ap, ◌||◌, Option, ◌≡◌, refl, true, false, none, some, arith}
use study_project_metrics_an.Wire.{IsJson}
use study_project_metrics_an.Storage.Memory.{MetricsStorage}
use study_project_metrics_an.Storage.Memory.Snapshot.{IsVisit}
use study_project_metrics_an.Storage.Memory.Valid.{
  update_gauge-IsValid, update_counter-IsValid, batch_update-IsValid, IsValid,
}
use study_project_metrics_an.Persist.{Disk, Faults}
use study_project_metrics_an.Persist.Save.{IsFresh}
use study_project_metrics_an.Persist.RoundTrip.{SameReads, load_metrics-save_metrics}
use study_project_metrics_an.Persist.Sync.{SyncStorage, attempt, save}
use study_project_metrics_an.Persist.Sync.Durable.{Write, gauge, counter, batch}
use study_project_metrics_an.Config.{ServerConfig}
use study_project_metrics_an.Server.Running.{
  Phase, serving, stopping, saving, saved, exited, Running, Loops, env_of, saved_from, written,
  is_open, is_copied, is_saved, Step, request, request_copy, request_saved, tick, tick_saved, fail,
  signal, final_copy, final_save, no_save, exit, Reach, here, next,
}

written-IsValid : (w : Write) (m : MetricsStorage) → IsValid m → IsValid (written w m)
unfolding written
written-IsValid (gauge name value) m v = update_gauge-IsValid name value m v
written-IsValid (counter name delta) m v = update_counter-IsValid name delta m v
written-IsValid (batch metrics) m v = batch_update-IsValid metrics m v

saved-is_copied : (p : Phase) → is_copied p ≡ false → is_saved p ≡ false
saved-is_copied serving h = refl
saved-is_copied stopping h = refl
saved-is_copied (saving copy) h = refl
saved-is_copied saved h = absurd cc
saved-is_copied exited h = refl

module _ (loops : Loops) (cfg : ServerConfig) where
  -- The storage and the copies of it are valid; the copy for the final snapshot is the storage while no
  -- request comes; only a server that is past the final snapshot has its result; and if that is no
  -- error, no request came later and no other save ended later, the file reads as the storage does.
  pub record IsStored (s : Running) : Type 0 where
    pub valid : IsValid s.store.mem
    pub ticking : (copy : MetricsStorage) → s.periodic ≡ some copy → IsValid copy
    pub copied :
        (copy : MetricsStorage)
        → s.phase ≡ saving copy
        → IsValid copy × (s.late ≡ false → copy ≡ s.store.mem)
    pub early : is_open s.phase ≡ true → is_saved s.phase ≡ false → s.final_error ≡ none
    pub stored :
        s.final_error ≡ some none
        → s.late ≡ false
        → s.overwritten ≡ false
        → SameReads loops.json cfg.file_storage_path s.store.mem s.store.disk

  module _ (codec : IsJson loops.json) (copies : IsVisit loops.copying)
      (ranges : IsVisit loops.ranging) where
    pub saved_from-SameReads :
        (copy : MetricsStorage) (faults : Faults) (s : SyncStorage)
        → IsValid copy
        → IsFresh faults.temp_name cfg.file_storage_path s.disk
        → (attempt (env_of loops cfg faults) (record s { mem = copy })).1 ≡ none
        → SameReads loops.json cfg.file_storage_path copy
            (saved_from (env_of loops cfg faults) copy s).disk
    unfolding saved_from save
    saved_from-SameReads copy faults s v fresh fine =
        load_metrics-save_metrics loops.json faults loops.copying loops.ranging
          cfg.file_storage_path copy s.disk codec copies ranges v fresh (unfold attempt in fine)

    -- Another save changes the file, which counts only after the final snapshot.
    after_save-IsStored :
        {s : Running} (copy : MetricsStorage) (faults : Faults) (writing : Option MetricsStorage)
        (periodic : Option MetricsStorage)
        → is_open s.phase ≡ true
        → ((c : MetricsStorage) → periodic ≡ some c → IsValid c)
        → IsStored s
        → IsStored (record s {
          store = saved_from (env_of loops cfg faults) copy s.store;
          writing = writing;
          periodic = periodic;
          overwritten = s.overwritten || is_saved s.phase;
        })
    unfolding saved_from
    after_save-IsStored copy faults writing periodic o t i = record {
      valid = i.valid;
      ticking = t;
      copied = i.copied;
      early = i.early;
      stored = λ e l w. absurd (ground (arith, i.early o));
    }

    step-IsStored : {s t : Running} → Step loops cfg s t → IsStored s → IsStored t
    step-IsStored {s} (request w o) i = record {
      valid = written-IsValid w s.store.mem i.valid;
      ticking = i.ticking;
      copied = λ copy e. ((i.copied copy e).0, λ l. absurd (ground (arith, ap is_copied e)));
      early = i.early;
      stored = λ e l w'. absurd (ground (arith, i.early o, saved-is_copied s.phase));
    }
    step-IsStored (request_copy n d o free) i = record {
      valid = i.valid;
      ticking = i.ticking;
      copied = i.copied;
      early = i.early;
      stored = i.stored;
    }
    step-IsStored {s} (request_saved copy faults e o fresh) i =
        after_save-IsStored copy faults none s.periodic o i.ticking i
    step-IsStored {s} (tick p o free) i = record {
      valid = i.valid;
      ticking = λ copy e. ground (arith, i.valid);
      copied = i.copied;
      early = i.early;
      stored = i.stored;
    }
    step-IsStored {s} (tick_saved copy faults e o fresh) i =
        after_save-IsStored copy faults s.writing none o (λ c e'. absurd cc) i
    step-IsStored (fail serves) i = record {
      valid = i.valid;
      ticking = i.ticking;
      copied = λ copy e. absurd cc;
      early = λ o. absurd cc;
      stored = i.stored;
    }
    step-IsStored (signal serves) i = record {
      valid = i.valid;
      ticking = i.ticking;
      copied = λ copy e. absurd cc;
      early = λ o n. ground (arith, i.early);
      stored = i.stored;
    }
    step-IsStored {s} (final_copy file stops) i = record {
      valid = i.valid;
      ticking = i.ticking;
      copied = λ copy e. (ground (arith, i.valid), λ l. ground arith);
      early = λ o n. ground (arith, i.early);
      stored = i.stored;
    }
    step-IsStored {s} (final_save copy faults saves fresh) i = record {
      valid = unfold saved_from in i.valid;
      ticking = i.ticking;
      copied = λ c e. absurd cc;
      early = λ o n. absurd cc;
      stored = λ e l w.
          let (v, same) = i.copied copy saves in
          unfold saved_from in
          subst
            (λ m.
              SameReads loops.json cfg.file_storage_path m
                (saved_from (env_of loops cfg faults) copy s.store).disk)
            (same l) (saved_from-SameReads copy faults s.store v fresh (ground arith));
    }
    step-IsStored (no_save file stops) i = record {
      valid = i.valid;
      ticking = i.ticking;
      copied = λ copy e. absurd cc;
      early = λ o n. absurd cc;
      stored = i.stored;
    }
    step-IsStored (exit s) i = record {
      valid = i.valid;
      ticking = i.ticking;
      copied = λ copy e. absurd cc;
      early = λ o. absurd cc;
      stored = i.stored;
    }

    pub Reach-IsStored :
        {mem : MetricsStorage} {disk : Disk} {s : Running}
        → IsValid mem
        → Reach loops cfg mem disk s
        → IsStored s
    Reach-IsStored v here = record {
      valid = v;
      ticking = λ copy e. absurd cc;
      copied = λ copy e. absurd cc;
      early = λ o n. refl;
      stored = λ e l w. absurd cc;
    }
    Reach-IsStored v (next r step) = step-IsStored step (Reach-IsStored v r)
