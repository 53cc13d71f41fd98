-- ===== src/Store/Database/Fresh.antt =====
-- `create` of the tables of packages/core/src/lib/datastore/memory.ts for a key that is not taken.
use tern_scheduler.Prelude.{
  String, true, false, none, some, List, [], ◌∷◌, ◌++◌, ◌≡◌, refl, arith, same, same_refl, ◌∙◌,
  contains,
}
use tern_scheduler.Model.Schedule.{ScheduledJob}
use tern_scheduler.Model.Task.{Task}
use tern_scheduler.Errors.Exec.{ok}
use tern_scheduler.Db.MemTable.{Model, MemTable, create, key_taken}
use tern_scheduler.Db.MemTable.Lookup.{lookup, lookup_rows-append}
use tern_scheduler.Db.MemTable.Consistent
use tern_scheduler.Db.MemTable.Matches.{lookup_rows-absent}
use tern_scheduler.Store.Database.{Database, job_model, task_model, create_job, create_task}
use tern_scheduler.Store.Database.Laws.{job_at, task_at, IsConsistent}

-- A key that `_add` accepts.
abbrev pub IsFresh : String → List String → Type 0
IsFresh k pks = (same k "" ≡ false) × (key_taken k pks ≡ false)

module _ (m : Model) where
  absent :
      (k : String) (t : MemTable m)
      → Consistent.IsConsistent m t
      → IsFresh k t.pks
      → lookup m k t ≡ none
  unfolding key_taken
  absent k t v f =
      let free : contains k t.pks ≡ false = ground (arith, f.1) in
      lookup_rows-absent m k t.rows (rw v.listed at free)

  create-fresh :
      (r : m.Row) (t : MemTable m)
      → Consistent.IsConsistent m t
      → IsFresh (m.key r) t.pks
      → (create m r t ≡ (true, record { rows = t.rows ++ r ∷ []; pks = t.pks ++ m.key r ∷ [] }))
        × (lookup m (m.key r) (record { rows = t.rows ++ r ∷ []; pks = t.pks ++ m.key r ∷ [] })
            ≡ some r)
  unfolding create
  create-fresh r t v f = (
    rw (f.0, f.1),
    lookup_rows-append m (m.key r) r t.rows ∙ rw (absent (m.key r) t v f, same_refl (m.key r)),
  )

-- A row with a fresh key is created, and found under its key.
pub create_job-fresh :
    (row : ScheduledJob) (db : Database)
    → IsConsistent db
    → IsFresh row.pk db.jobs.pks
    → (create_job row db ≡ (ok tt, (create_job row db).1))
      × (job_at row.pk (create_job row db).1 ≡ some row)
      × ((create_job row db).1.tasks ≡ db.tasks)
unfolding create_job
create_job-fresh row db v f =
    let c = create-fresh job_model row db.jobs v.jobs_ok f in rw (c.0) (refl, c.1, refl)

pub create_task-fresh :
    (row : Task) (db : Database)
    → IsConsistent db
    → IsFresh row.pk db.tasks.pks
    → (create_task row db ≡ (ok tt, (create_task row db).1))
      × (task_at row.pk (create_task row db).1 ≡ some row)
      × ((create_task row db).1.jobs ≡ db.jobs)
unfolding create_task
create_task-fresh row db v f =
    let c = create-fresh task_model row db.tasks v.tasks_ok f in rw (c.0) (refl, c.1, refl)
