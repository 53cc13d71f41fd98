-- ===== src/Examples/Polls.antt =====
-- A node that polls (packages/core/src/lib/wire) a store with a task that was due at 5.
use tern_scheduler.Prelude.{◌≡◌, refl, pos}
use tern_scheduler.Model.Task.{Task}
use tern_scheduler.Errors.Exec.{ok}
use tern_scheduler.Controller.World.{Env, World, running}
use tern_scheduler.Wire.Events.{poll_task_ready_to_execute}
use tern_scheduler.Wire.Events.Due.{poll_task_ready_to_execute-due}
use tern_scheduler.Examples.{backup_job, backup_task, holding, env_answering, world_of}

abbrev due_task : Task
due_task = record backup_task { execute_at = pos 5 }

abbrev polling_env : Env
polling_env = env_answering (running "exec1")

abbrev one_due : World
one_due = world_of (holding backup_job due_task)

poll_task_ready_to_execute-due_example :
    poll_task_ready_to_execute polling_env (pos 9) one_due ≡ (ok tt, one_due)
poll_task_ready_to_execute-due_example =
    poll_task_ready_to_execute-due polling_env (pos 9) one_due (refl, tt)
