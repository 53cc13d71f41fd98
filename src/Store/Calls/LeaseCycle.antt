-- ===== src/Store/Calls/LeaseCycle.antt =====
-- A lease from its taking to its release (packages/core/src/lib/datastore/db-impl.ts over
-- memory.ts), with the calls of other nodes in between.
use tern_scheduler.Prelude.{
  ℕ, String, Bool, true, List, ◌≡◌, ◌≢◌, refl, arith, ◌∙◌, Option, none, some, All, pos, same,
  same_refl, eq_of_same, if◌then◌else◌, ltb_ℤ,
}
use tern_scheduler.Model.Value.{Date, ScheduleState}
use tern_scheduler.Model.Schedule.{ScheduledJob}
use tern_scheduler.Errors.{lease_not_obtained}
use tern_scheduler.Errors.Exec.{ok, err, Result}
use tern_scheduler.Db.MemTable.Lookup.{map_option}
use tern_scheduler.Store.Database.{Database, update_date}
use tern_scheduler.Store.Database.Laws.{job_at, IsConsistent}
use tern_scheduler.Store.Jobs.{
  lease_scheduled_job, release_scheduled_job_lease, repair_expired_lease_for_scheduled_job,
}
use tern_scheduler.Store.Jobs.Leases.{
  owned_by, leased, released, lease_answer, Outcome, lease_row, lease_scheduled_job-Outcome,
  release_scheduled_job_lease-Outcome,
}
use tern_scheduler.Store.Jobs.Repair.{repaired, repair_expired_lease-Outcome}
use tern_scheduler.Store.Calls.{Call, run}
use tern_scheduler.Store.Calls.Consistency.{run-IsConsistent}
use tern_scheduler.Store.Calls.Exclusion.{ByOther, run-keeps_leased}

module _ (pk : String) (op : ScheduleState) (task : Option String) (a : String) (now : Date)
    (secs : ℕ) (db : Database) (named : pk ≢ "") (v : IsConsistent db) (j : ScheduledJob)
    (found : job_at pk db ≡ some j) (free : j.update_state ≡ none) where
  abbrev held_row : ScheduledJob
  held_row = leased op task a (update_date now (pos secs)) j

  abbrev taken : Result (Unit {0}) × Database
  taken = lease_scheduled_job pk op task a now secs db

  taking :
      Outcome
        (lease_answer a pk (job_at pk db))
        (lease_row op task a (update_date now (pos secs)))
        pk
        db
        taken
  taking = lease_scheduled_job-Outcome pk named db v op task a now secs

  granted : taken.0 ≡ ok tt
  granted = taking.answers ∙ rw (found, free)

  row_taken : job_at pk taken.1 ≡ some held_row
  row_taken = taking.rows pk ∙ rw (same_refl pk, found, free)

  held : owned_by a held_row ≡ true
  held = same_refl a

  row_kept :
      (cs : List Call) → All (ByOther a pk held_row) cs → job_at pk (run taken.1 cs) ≡ some held_row
  row_kept cs others =
      run-keeps_leased a pk held_row taken.1 cs taking.consistent row_taken held others

same_row :
    (f : ScheduledJob → ScheduledJob) (pk k : String) (db : Database) (x : ScheduledJob)
    → job_at pk db ≡ some x
    → f x ≡ x
    → (if same pk k then map_option f (job_at k db) else job_at k db) ≡ job_at k db
same_row f pk k db x e h = ground (arith, eq_of_same pk k)

-- A free scheduled job, in a consistent store and under a key that is not empty, is leased when it
-- is asked for; then, after any sequence of calls by other nodes, which restrict themselves as
-- `ByOther` says: they release nothing and mark nothing for repair in the holder's name, they
-- steal or repair the row only at times at which memory.ts refuses it (with its reversed test,
-- those from the end of the lease on), they delete the row only if it is not out to pasture, and
-- their keys are not empty, an attempt by anyone to lease it again is refused with an error that
-- names the holder and the end of its lease, and changes no row. A repair at a time before the end
-- of the lease is excluded, since memory.ts grants it and it takes the lease away.
pub lease_excludes :
    (pk : String) (op : ScheduleState) (task : Option String) (a : String) (now : Date) (secs : ℕ)
    (db : Database) (j : ScheduledJob) (cs : List Call) (op' : ScheduleState)
    (task' : Option String) (b : String) (now' : Date) (secs' : ℕ)
    → pk ≢ ""
    → IsConsistent db
    → job_at pk db ≡ some j
    → j.update_state ≡ none
    → All (ByOther a pk (leased op task a (update_date now (pos secs)) j)) cs
    → ((lease_scheduled_job pk op task a now secs db).0 ≡ ok tt)
      × ((lease_scheduled_job pk op' task' b now' secs'
            (run (lease_scheduled_job pk op task a now secs db).1 cs)).0
          ≡ err (
              lease_not_obtained b
                (leased op task a (update_date now (pos secs)) j)
                (some a)
                (some (update_date now (pos secs)))))
      × ((k : String)
          → job_at k
              (lease_scheduled_job pk op' task' b now' secs'
                (run (lease_scheduled_job pk op task a now secs db).1 cs)).1
            ≡ job_at k (run (lease_scheduled_job pk op task a now secs db).1 cs))
lease_excludes pk op task a now secs db j cs op' task' b now' secs' named v found free others =
    let t = taking pk op task a now secs db named v j found free in
    let w =
      run-IsConsistent (taken pk op task a now secs db named v j found free).1 cs t.consistent in
    let kept = row_kept pk op task a now secs db named v j found free cs others in
    let again = lease_scheduled_job-Outcome pk named _ w op' task' b now' secs' in
    (
      granted pk op task a now secs db named v j found free,
      again.answers ∙ rw kept,
      λ k.
          again.rows k
          ∙ same_row (lease_row op' task' b (update_date now' (pos secs'))) pk k
              (run (lease_scheduled_job pk op task a now secs db).1 cs)
              (leased op task a (update_date now (pos secs)) j) kept refl,
    )

-- After a free scheduled job was leased, in a consistent store and under a key that is not empty,
-- and after any sequence of calls by other nodes, which restrict themselves as `ByOther` says:
-- they release nothing and mark nothing for repair in the holder's name, they steal or repair the
-- row only at times at which memory.ts refuses it (with its reversed test, those from the end of
-- the lease on), they delete the row only if it is not out to pasture, and their keys are not
-- empty, the holder's release with a defined pasture flag is granted and leaves the job free, with
-- no lease, no repair state and the pasture flag and reason that were given, all other columns as
-- before the lease. A repair at a time before the end of the lease is excluded, since memory.ts
-- grants it and it takes the lease away.
pub lease_release :
    (pk : String) (op : ScheduleState) (task : Option String) (a : String) (now : Date) (secs : ℕ)
    (db : Database) (j : ScheduledJob) (cs : List Call) (pasture : Bool) (reason : Option String)
    → pk ≢ ""
    → IsConsistent db
    → job_at pk db ≡ some j
    → j.update_state ≡ none
    → All (ByOther a pk (leased op task a (update_date now (pos secs)) j)) cs
    → ((release_scheduled_job_lease a pk
          (some pasture)
          reason
          (run (lease_scheduled_job pk op task a now secs db).1 cs)).0
        ≡ ok tt)
      × (job_at pk
            (release_scheduled_job_lease a pk
              (some pasture)
              reason
              (run (lease_scheduled_job pk op task a now secs db).1 cs)).1
          ≡ some (released pasture reason j))
lease_release pk op task a now secs db j cs pasture reason named v found free others =
    let t = taking pk op task a now secs db named v j found free in
    let w =
      run-IsConsistent (taken pk op task a now secs db named v j found free).1 cs t.consistent in
    let kept = row_kept pk op task a now secs db named v j found free cs others in
    let out = release_scheduled_job_lease-Outcome pk named _ w a pasture reason in
    (out.answers ∙ rw (kept, same_refl a), out.rows pk ∙ rw (same_refl pk, kept) (rw (same_refl a)))

-- For a job that is held until `e`, in a consistent store and under a key that is not empty, the
-- memory store hands the lease to whoever asks for a repair at a time before `e`, who gets the row
-- with the former state kept as its repair state; from `e` on every such request is answered with
-- null and changes no column of the row.
pub repair_before_expiry :
    (pk id : String) (now e : Date) (secs : ℕ) (db : Database) (j : ScheduledJob)
    (s : ScheduleState)
    → pk ≢ ""
    → IsConsistent db
    → job_at pk db ≡ some j
    → j.update_state ≡ some s
    → j.lease_expires ≡ some e
    → ((repair_expired_lease_for_scheduled_job pk id now secs db).0
        ≡ (if ltb_ℤ now e then ok (some (repaired id (update_date now (pos secs)) j)) else ok none))
      × (job_at pk (repair_expired_lease_for_scheduled_job pk id now secs db).1
          ≡ (if ltb_ℤ now e then some (repaired id (update_date now (pos secs)) j) else some j))
repair_before_expiry pk id now e secs db j s named v found busy ends =
    let out = repair_expired_lease-Outcome pk named db v id now secs in
    (
      out.answers ∙ rw found (rw (busy, ends)),
      out.rows pk ∙ rw (same_refl pk, found) (ground arith),
    )
