-- ===== src/ServiceThread/Stopping.antt =====
-- `ServiceThread::stop` and the end of `ServiceThread::run` (server/src/ServiceThread.cpp) as two
-- threads that share `m_exited`, the mutex and the condition variable: one step for each access.
pub mod Handshake
use remote_dict.Prelude.{◌≡◌, Bool, true, false, Option, none, some, if◌then◌else◌}

-- Where `run` stands: in the event loop, before `m_exited.store`, before the lock, before
-- `notify_one`, before the guard's end, and behind it.
pub data RunPoint : Type 0 where
  dispatching storing locking notifying unlocking ended : RunPoint

-- Where `stop` stands: before the `write`, before the lock, before the test of `m_exited`, behind a
-- test that failed, asleep in `wait`, awake in `wait` but without the lock, and behind the return
-- of its value.
pub data StopPoint : Type 0 where
  writing acquiring testing falling sleeping waking : StopPoint
  returning : Bool → StopPoint

pub data Owner : Type 0 where
  runner stopper : Owner

-- `sent` says whether the byte 'e' is in the socket pair, `owner` which thread has the mutex.
pub record Shared : Type 0 where
  pub run : RunPoint
  pub stop : StopPoint
  pub exited : Bool
  pub owner : Option Owner
  pub sent : Bool

-- Both threads before they meet.
abbrev pub apart : Shared
apart = record { run = dispatching; stop = writing; exited = false; owner = none; sent = false }

-- `notify_one`: a thread that is not asleep does not notice it.
unfoldable pub notify_one : StopPoint → StopPoint
notify_one sleeping = waking
notify_one point = point

-- `lock`, for a thread that is blocked while the other has the mutex.
unfoldable pub acquire : Owner → Shared → Option Shared
acquire who s = elim s.owner [ none ↦ some (record s { owner = some who }) | some other ↦ none ]

-- A step of `run`. The event loop returns once the byte has told it to exit.
unfoldable pub run_step : Shared → Option Shared
unfolding acquire notify_one
run_step s = elim s.run [
  | dispatching ↦ if s.sent then some (record s { run = storing }) else none
  | storing ↦ some (record s { run = locking; exited = true })
  | locking ↦ acquire runner (record s { run = notifying })
  | notifying ↦ some (record s { run = unlocking; stop = notify_one s.stop })
  | unlocking ↦ some (record s { run = ended; owner = none })
  | ended ↦ none
]

-- A step of `stop`, whose `write` succeeds or not. `wait` gives the mutex back as it falls asleep;
-- the lock ends with the block that tests.
unfoldable pub stop_step : Bool → Shared → Option Shared
unfolding acquire
stop_step writes s = elim s.stop [
  | writing ↦ some (
      if writes
      then record s { stop = acquiring; sent = true }
      else record s { stop = returning false })
  | acquiring ↦ acquire stopper (record s { stop = testing })
  | testing ↦ some (
      if s.exited
      then record s { stop = returning true; owner = none }
      else record s { stop = falling })
  | falling ↦ some (record s { stop = sleeping; owner = none })
  | sleeping ↦ none
  | waking ↦ acquire stopper (record s { stop = testing })
  | returning _ ↦ none
]

-- The condition variable is one for all service threads: a notification of another thread, or none
-- at all, can end the sleep.
unfoldable pub stray_wake : Shared → Option Shared
stray_wake s = elim s.stop [ sleeping ↦ some (record s { stop = waking }) | _ ↦ none ]
