-- ===== src/ServiceThread/Stopping/Handshake/Termination.antt =====
-- How the interleavings of `ServiceThread::stop` with the end of `ServiceThread::run`
-- (server/src/ServiceThread.cpp) end.
use remote_dict.Prelude.{
  subst, ℕ, zero, suc, ◌+◌, ◌<◌, ◌≤◌, ◌≡◌, refl, Bool, true, false, Option, none, some, arith, ◌⊎◌,
  inl, inr,
}
use remote_dict.ServiceThread.Stopping.{
  RunPoint, StopPoint, Owner, Shared, run_step, stop_step, acquire, notify_one,
}
use remote_dict.ServiceThread.Stopping.Handshake.{
  Step, runs, stops, Reach, later, Inv, Reach-Inv, has_notified, run_owns, stop_owns, counts_on_it,
  has_written, has_succeeded, is_owned,
}

run_rank : RunPoint → ℕ
run_rank RunPoint.dispatching = 20
run_rank RunPoint.storing = 16
run_rank RunPoint.locking = 12
run_rank RunPoint.notifying = 8
run_rank RunPoint.unlocking = 4
run_rank RunPoint.ended = 0

stop_rank : StopPoint → ℕ
stop_rank StopPoint.writing = 6
stop_rank StopPoint.acquiring = 5
stop_rank StopPoint.testing = 4
stop_rank StopPoint.falling = 3
stop_rank StopPoint.sleeping = 2
stop_rank StopPoint.waking = 5
stop_rank (StopPoint.returning b) = 0

rank : Shared → ℕ
unfolding run_rank stop_rank
rank s = run_rank s.run + stop_rank s.stop

run_rank-le : (r : RunPoint) → run_rank r ≤ 20
unfolding run_rank
run_rank-le RunPoint.dispatching = omega arith
run_rank-le RunPoint.storing = omega arith
run_rank-le RunPoint.locking = omega arith
run_rank-le RunPoint.notifying = omega arith
run_rank-le RunPoint.unlocking = omega arith
run_rank-le RunPoint.ended = omega arith

stop_rank-le : (p : StopPoint) → stop_rank p ≤ 6
unfolding stop_rank
stop_rank-le StopPoint.writing = omega arith
stop_rank-le StopPoint.acquiring = omega arith
stop_rank-le StopPoint.testing = omega arith
stop_rank-le StopPoint.falling = omega arith
stop_rank-le StopPoint.sleeping = omega arith
stop_rank-le StopPoint.waking = omega arith
stop_rank-le (StopPoint.returning b) = omega arith

-- The step that a thread can take, if it can, lowers the rank.
abbrev Lowers : ℕ → Option Shared → Type 0
Lowers n none = Unit
Lowers n (some t) = rank t < n

notify_one-rank : (p : StopPoint) → stop_rank (notify_one p) ≤ stop_rank p + 3
unfolding notify_one stop_rank
notify_one-rank StopPoint.writing = omega arith
notify_one-rank StopPoint.acquiring = omega arith
notify_one-rank StopPoint.testing = omega arith
notify_one-rank StopPoint.falling = omega arith
notify_one-rank StopPoint.sleeping = omega arith
notify_one-rank StopPoint.waking = omega arith
notify_one-rank (StopPoint.returning b) = omega arith

run-rank :
    (r : RunPoint) (p : StopPoint) (o : Option Owner) (x w : Bool)
    → Lowers
        (run_rank r + stop_rank p)
        (run_step (record { run = r; stop = p; exited = x; owner = o; sent = w }))
unfolding run_step acquire rank run_rank
run-rank RunPoint.dispatching p o x true = omega arith
run-rank RunPoint.dispatching p o x false = tt
run-rank RunPoint.storing p o x w = omega arith
run-rank RunPoint.locking p none x w = omega arith
run-rank RunPoint.locking p (some o) x w = tt
run-rank RunPoint.notifying p o x w = omega (arith, notify_one-rank p)
run-rank RunPoint.unlocking p o x w = omega arith
run-rank RunPoint.ended p o x w = tt

stop-rank :
    (r : RunPoint) (p : StopPoint) (o : Option Owner) (x w writes : Bool)
    → Lowers
        (run_rank r + stop_rank p)
        (stop_step writes (record { run = r; stop = p; exited = x; owner = o; sent = w }))
unfolding stop_step acquire rank stop_rank
stop-rank r StopPoint.writing o x w true = omega arith
stop-rank r StopPoint.writing o x w false = omega arith
stop-rank r StopPoint.acquiring none x w b = omega arith
stop-rank r StopPoint.acquiring (some o) x w b = tt
stop-rank r StopPoint.testing o true w b = omega arith
stop-rank r StopPoint.testing o false w b = omega arith
stop-rank r StopPoint.falling o x w b = omega arith
stop-rank r StopPoint.sleeping o x w b = tt
stop-rank r StopPoint.waking none x w b = omega arith
stop-rank r StopPoint.waking (some o) x w b = tt
stop-rank r (StopPoint.returning a) o x w b = tt

Lowers-some : (n : ℕ) (o : Option Shared) (t : Shared) → o ≡ some t → Lowers n o → rank t < n
Lowers-some n o t e h = subst (Lowers n) e h

Step-rank : {s t : Shared} → Step s t → rank t < rank s
unfolding rank
Step-rank {s} {t} (runs e) =
    Lowers-some (rank s) (run_step s) t e (run-rank s.run s.stop s.owner s.exited s.sent)
Step-rank {s} {t} (stops writes e) =
    Lowers-some (rank s) (stop_step writes s) t e
      (stop-rank s.run s.stop s.owner s.exited s.sent writes)

-- `stop` is over: it could not write, or it has seen that the thread has ended.
abbrev pub IsOver : Shared → Type 0
IsOver s =
    ((s.stop ≡ StopPoint.returning false) × (s.sent ≡ false))
    ⊎ ((s.stop ≡ StopPoint.returning true) × (s.exited ≡ true))

-- Some thread can take a step.
abbrev pub CanStep : Shared → Type 0
CanStep s = (t : Shared) × Step s t

-- `run` goes on once it has the mutex.
holder-CanStep :
    (r : RunPoint) (p : StopPoint) (x w : Bool)
    → Inv (record { run = r; stop = p; exited = x; owner = some Owner.runner; sent = w })
    → CanStep (record { run = r; stop = p; exited = x; owner = some Owner.runner; sent = w })
unfolding run_step is_owned run_owns
holder-CanStep RunPoint.dispatching p x w h = absurd (cc)
holder-CanStep RunPoint.storing p x w h = (_, runs refl)
holder-CanStep RunPoint.locking p x w h = absurd (cc)
holder-CanStep RunPoint.notifying p x w h = (_, runs refl)
holder-CanStep RunPoint.unlocking p x w h = (_, runs refl)
holder-CanStep RunPoint.ended p x w h = absurd (cc)

-- `run` goes on while `stop` is asleep.
asleep-CanStep :
    (r : RunPoint) (o : Option Owner) (x w : Bool)
    → Inv (record { run = r; stop = StopPoint.sleeping; exited = x; owner = o; sent = w })
    → CanStep (record { run = r; stop = StopPoint.sleeping; exited = x; owner = o; sent = w })
unfolding run_step is_owned run_owns stop_owns has_written counts_on_it has_notified acquire
asleep-CanStep RunPoint.dispatching o x true h = (_, runs refl)
asleep-CanStep RunPoint.dispatching o x false h = absurd (cc)
asleep-CanStep RunPoint.storing o x w h = (_, runs refl)
asleep-CanStep RunPoint.locking none x w h = (_, runs refl)
asleep-CanStep RunPoint.locking (some Owner.runner) x w h = absurd (cc)
asleep-CanStep RunPoint.locking (some Owner.stopper) x w h = absurd (cc)
asleep-CanStep RunPoint.notifying o x w h = (_, runs refl)
asleep-CanStep RunPoint.unlocking o x w h = (_, runs refl)
asleep-CanStep RunPoint.ended o x w h = absurd (cc)

progress :
    (r : RunPoint) (p : StopPoint) (o : Option Owner) (x w : Bool)
    → Inv (record { run = r; stop = p; exited = x; owner = o; sent = w })
    → IsOver (record { run = r; stop = p; exited = x; owner = o; sent = w })
      ⊎ CanStep (record { run = r; stop = p; exited = x; owner = o; sent = w })
unfolding stop_step is_owned stop_owns has_written has_succeeded acquire
progress r StopPoint.writing o x w h = inr (_, stops true refl)
progress r StopPoint.acquiring none x w h = inr (_, stops true refl)
progress r StopPoint.acquiring (some Owner.runner) x w h = inr (holder-CanStep r _ x w h)
progress r StopPoint.acquiring (some Owner.stopper) x w h = absurd (cc)
progress r StopPoint.testing o x w h = inr (_, stops true refl)
progress r StopPoint.falling o x w h = inr (_, stops true refl)
progress r StopPoint.sleeping o x w h = inr (asleep-CanStep r o x w h)
progress r StopPoint.waking none x w h = inr (_, stops true refl)
progress r StopPoint.waking (some Owner.runner) x w h = inr (holder-CanStep r _ x w h)
progress r StopPoint.waking (some Owner.stopper) x w h = absurd (cc)
progress r (StopPoint.returning true) o x w h = inl (inr (refl, ground (arith, h.obeyed)))
progress r (StopPoint.returning false) o x w h = inl (inl (refl, h.written))

-- So many steps in a row.
pub data Schedule : ℕ → Shared → Shared → Type 0 where
  done : {s : Shared} → Schedule zero s s
  then : {n : ℕ} {s t u : Shared} → Step s t → Schedule n t u → Schedule (suc n) s u

Schedule-rank : {n : ℕ} {s t : Shared} → Schedule n s t → n + rank t ≤ rank s
Schedule-rank done = omega arith
Schedule-rank (then st path) = omega (arith, Step-rank st, Schedule-rank path)

Schedule-Reach : {n : ℕ} {s t : Shared} → Reach s → Schedule n s t → Reach t
Schedule-Reach r done = r
Schedule-Reach r (then st path) = Schedule-Reach (later r st) path

-- From every state that the threads can come to, stray wake-ups among the steps that led there,
-- any schedule without further stray wake-ups takes at most 26 steps, and where it stands still,
-- `stop` has returned: false without a byte in the socket pair, or true with `m_exited` set.
pub stop_terminates :
    (n : ℕ) (s t : Shared) → Reach s → Schedule n s t → (n ≤ 26) × (IsOver t ⊎ CanStep t)
unfolding rank
stop_terminates n s t r path = (
  omega (arith, Schedule-rank path, run_rank-le s.run, stop_rank-le s.stop),
  progress t.run t.stop t.owner t.exited t.sent (Reach-Inv (Schedule-Reach r path)),
)
