-- ===== src/Wire/Timers.antt =====
-- class PollingCallback of packages/core/src/lib/basics.ts: the callbacks that wait for their timer.
pub mod Once
pub mod Stopped
use tern_scheduler.Prelude.{
  ℕ, zero, suc, ◌+◌, Bool, true, false, not, ◌==◌, ltb, if◌then◌else◌, Option, none, some, List, [],
  ◌∷◌, ◌++◌, length, filter, ◌≡◌,
}
use tern_scheduler.Errors.{Error, other}
use tern_scheduler.Errors.Exec.{Result, ok, err}
use tern_scheduler.Cron.Next.Values.{listed}

-- `called` and `reported` are no fields of the class: they record the callbacks that were called,
-- the last one first, and the errors that were emitted as `generalError`.
pub record PollingCallback : Type 0 where
  pub count : ℕ
  pub running_callbacks : List ℕ
  pub is_active : Bool
  pub has_messaging : Bool
  pub called : List ℕ
  pub reported : List Error

abbrev pub new_polling : Bool → PollingCallback
new_polling messaging = record {
  count = 0;
  running_callbacks = [];
  is_active = true;
  has_messaging = messaging;
  called = [];
  reported = [];
}

-- registerPollCallback
unfoldable pub register_poll_callback : PollingCallback → PollingCallback
register_poll_callback s =
    if s.is_active
    then record s { count = s.count + 1; running_callbacks = s.running_callbacks ++ (s.count ∷ []) }
    else s

abbrev pub set_event_emitter : Bool → PollingCallback → PollingCallback
set_event_emitter messaging s = record s { has_messaging = messaging }

abbrev pub active_count : PollingCallback → ℕ
active_count s = length s.running_callbacks

unfoldable pub stop : PollingCallback → PollingCallback
stop s = record s { is_active = false }

unfoldable pub register_times : ℕ → PollingCallback → PollingCallback
register_times zero s = s
register_times (suc n) s = register_times n (register_poll_callback s)

abbrev pub report : Option Error → PollingCallback → PollingCallback
report none s = s
report (some e) s = if s.has_messaging then record s { reported = e ∷ s.reported } else s

-- A callback that registers so many callbacks before it returns, or throws.
unfoldable pub call_back : ℕ → ℕ → Option Error → PollingCallback → PollingCallback
call_back id registers thrown s =
    report thrown (register_times registers (record s { called = id ∷ s.called }))

unfoldable pub delete_callback : ℕ → PollingCallback → PollingCallback
delete_callback id s = record s {
  running_callbacks = filter (λ i. not (i == id)) s.running_callbacks;
}

-- The timer of a callback runs out.
unfoldable pub time_out : ℕ → ℕ → Option Error → PollingCallback → PollingCallback
time_out id registers thrown s =
    delete_callback id (if s.is_active then call_back id registers thrown s else s)

-- What happens to the object. A timer runs out only once, while its callback is kept.
pub data Step : PollingCallback → PollingCallback → Type 0 where
  registers : (s : PollingCallback) → Step s (register_poll_callback s)
  times_out :
      (s : PollingCallback) (id calls : ℕ) (thrown : Option Error)
      → listed id s.running_callbacks ≡ true
      → Step s (time_out id calls thrown s)
  stops : (s : PollingCallback) → Step s (stop s)
  listens : (messaging : Bool) (s : PollingCallback) → Step s (set_event_emitter messaging s)

pub data Reach (s : PollingCallback) : PollingCallback → Type 0 where
  here : Reach s s
  next : {t u : PollingCallback} → Reach s t → Step t u → Reach s u

-- stopAndWait, given the time and the number of callbacks at each try; none when it still waits.
unfoldable pub try_it : ℕ → List (ℕ × ℕ) → Option (Result Bool)
try_it timed_out [] = none
try_it timed_out ((now, count) ∷ later) =
    let rest = try_it timed_out later in
    if ltb 0 count
    then (if ltb timed_out now then some (err (other "timed out waiting for stop")) else rest)
    else some (ok true)
