-- ===== src/ServiceThread/Stopping/Handshake.antt =====
-- What the interleavings of `ServiceThread::stop` with the end of `ServiceThread::run`
-- (server/src/ServiceThread.cpp) can come to.
pub mod Termination
use remote_dict.Prelude.{
  sym, subst, ℕ, ◌+◌, ◌*◌, ◌<◌, ◌≤◌, ◌≡◌, ◌≢◌, refl, Bool, true, false, not, ◌&&◌, Option, none,
  some, arith, Bool-cases, Option-cases, ◌⊎◌, inl, inr,
}
use remote_dict.ServiceThread.Stopping.{
  RunPoint, StopPoint, Owner, Shared, apart, run_step, stop_step, stray_wake, acquire, notify_one,
}

pub data Step (s t : Shared) : Type 0 where
  runs : run_step s ≡ some t → Step s t
  stops : (writes : Bool) → stop_step writes s ≡ some t → Step s t

-- The states that the threads can come to, stray wake-ups among the steps.
pub data Reach : Shared → Type 0 where
  start : Reach apart
  later : {s t : Shared} → Reach s → Step s t → Reach t
  strays : {s t : Shared} → Reach s → stray_wake s ≡ some t → Reach t

has_stored : RunPoint → Bool
has_stored RunPoint.dispatching = false
has_stored RunPoint.storing = false
has_stored _ = true

has_notified : RunPoint → Bool
has_notified RunPoint.unlocking = true
has_notified RunPoint.ended = true
has_notified _ = false

run_owns : RunPoint → Bool
run_owns RunPoint.notifying = true
run_owns RunPoint.unlocking = true
run_owns _ = false

stop_owns : StopPoint → Bool
stop_owns StopPoint.testing = true
stop_owns StopPoint.falling = true
stop_owns _ = false

-- `stop` counts on a notification that is still to come.
counts_on_it : StopPoint → Bool
counts_on_it StopPoint.falling = true
counts_on_it StopPoint.sleeping = true
counts_on_it _ = false

has_written : StopPoint → Bool
has_written StopPoint.writing = false
has_written (StopPoint.returning false) = false
has_written _ = true

has_succeeded : StopPoint → Bool
has_succeeded (StopPoint.returning true) = true
has_succeeded _ = false

is_owned : Owner → Option Owner → Bool
is_owned Owner.runner (some Owner.runner) = true
is_owned Owner.stopper (some Owner.stopper) = true
is_owned _ _ = false

-- Who has the mutex, what `m_exited` and the socket pair say, and that a notification counted on
-- has not been given.
record Inv (s : Shared) : Type 0 where
  runner : is_owned Owner.runner s.owner ≡ run_owns s.run
  stopper : is_owned Owner.stopper s.owner ≡ stop_owns s.stop
  stored : s.exited ≡ has_stored s.run
  expected : counts_on_it s.stop && has_notified s.run ≡ false
  written : s.sent ≡ has_written s.stop
  obeyed : has_succeeded s.stop && not s.exited ≡ false

exclusive : (o : Option Owner) → is_owned Owner.runner o && is_owned Owner.stopper o ≡ false
unfolding is_owned
exclusive none = refl
exclusive (some Owner.runner) = refl
exclusive (some Owner.stopper) = refl

unstored : (r : RunPoint) → has_stored r ≡ false → has_notified r ≡ false
unfolding has_stored has_notified
unstored RunPoint.dispatching h = refl
unstored RunPoint.storing h = refl
unstored RunPoint.locking h = refl
unstored RunPoint.notifying h = refl
unstored RunPoint.unlocking h = absurd (cc)
unstored RunPoint.ended h = absurd (cc)

-- `notify_one` leaves nobody without the mutex counting on it.
notified :
    (p : StopPoint)
    → stop_owns p ≡ false
    → (counts_on_it (notify_one p) ≡ false)
      × (stop_owns (notify_one p) ≡ false)
      × (has_written (notify_one p) ≡ has_written p)
unfolding notify_one stop_owns counts_on_it has_written
notified StopPoint.writing h = (refl, refl, refl)
notified StopPoint.acquiring h = (refl, refl, refl)
notified StopPoint.testing h = absurd (cc)
notified StopPoint.falling h = absurd (cc)
notified StopPoint.sleeping h = (refl, refl, refl)
notified StopPoint.waking h = (refl, refl, refl)
notified (StopPoint.returning b) h = (refl, refl, refl)

and_false : (b : Bool) → b && false ≡ false
and_false true = refl
and_false false = refl

calm_success :
    (p : StopPoint) (x : Bool)
    → has_succeeded p && not x ≡ false
    → has_succeeded (notify_one p) && not x ≡ false
unfolding notify_one has_succeeded
calm_success StopPoint.sleeping x h = refl
calm_success StopPoint.writing x h = h
calm_success StopPoint.acquiring x h = h
calm_success StopPoint.testing x h = h
calm_success StopPoint.falling x h = h
calm_success StopPoint.waking x h = h
calm_success (StopPoint.returning b) x h = h

-- The step that a thread can take, if it can, keeps the invariant.
abbrev Keeps : Option Shared → Type 0
Keeps none = Unit
Keeps (some t) = Inv t

Keeps-some : (o : Option Shared) (t : Shared) → o ≡ some t → Keeps o → Inv t
Keeps-some o t e h = subst Keeps e h

run-Inv :
    (r : RunPoint) (p : StopPoint) (o : Option Owner) (x w : Bool)
    → Inv (record { run = r; stop = p; exited = x; owner = o; sent = w })
    → Keeps (run_step (record { run = r; stop = p; exited = x; owner = o; sent = w }))
unfolding run_step acquire notify_one has_stored has_notified run_owns stop_owns counts_on_it
    has_written is_owned has_succeeded
run-Inv RunPoint.dispatching p o x true h = record {
  runner = h.runner;
  stopper = h.stopper;
  stored = h.stored;
  expected = h.expected;
  written = h.written;
  obeyed = h.obeyed;
}
run-Inv RunPoint.dispatching p o x false h = tt
run-Inv RunPoint.storing p o x w h = record {
  runner = h.runner;
  stopper = h.stopper;
  stored = refl;
  expected = h.expected;
  written = h.written;
  obeyed = and_false (has_succeeded p);
}
run-Inv RunPoint.locking p none x w h = record {
  runner = refl;
  stopper = h.stopper;
  stored = h.stored;
  expected = h.expected;
  written = h.written;
  obeyed = h.obeyed;
}
run-Inv RunPoint.locking p (some o) x w h = tt
run-Inv RunPoint.notifying p o x w h =
    let outside : stop_owns p ≡ false = ground (arith, exclusive o, h.runner, h.stopper) in
    let (calm, out, wrote) = notified p outside in
    record {
      runner = h.runner;
      stopper = ground (arith, h.stopper);
      stored = h.stored;
      expected = ground arith;
      written = ground (arith, h.written);
      obeyed = calm_success p x h.obeyed;
    }
run-Inv RunPoint.unlocking p o x w h = record {
  runner = refl;
  stopper = ground (arith, exclusive o, h.runner, h.stopper);
  stored = h.stored;
  expected = h.expected;
  written = h.written;
  obeyed = h.obeyed;
}
run-Inv RunPoint.ended p o x w h = tt

stop-Inv :
    (r : RunPoint) (p : StopPoint) (o : Option Owner) (x w writes : Bool)
    → Inv (record { run = r; stop = p; exited = x; owner = o; sent = w })
    → Keeps (stop_step writes (record { run = r; stop = p; exited = x; owner = o; sent = w }))
unfolding stop_step acquire has_stored has_notified run_owns stop_owns counts_on_it has_written
    is_owned has_succeeded
stop-Inv r StopPoint.writing o x w true h = record {
  runner = h.runner;
  stopper = h.stopper;
  stored = h.stored;
  expected = refl;
  written = refl;
  obeyed = refl;
}
stop-Inv r StopPoint.writing o x w false h = record {
  runner = h.runner;
  stopper = h.stopper;
  stored = h.stored;
  expected = refl;
  written = h.written;
  obeyed = refl;
}
stop-Inv r StopPoint.acquiring none x w b h = record {
  runner = h.runner;
  stopper = refl;
  stored = h.stored;
  expected = refl;
  written = h.written;
  obeyed = refl;
}
stop-Inv r StopPoint.acquiring (some o) x w b h = tt
stop-Inv r StopPoint.testing o true w b h = record {
  runner = ground (arith, exclusive o, h.runner, h.stopper);
  stopper = refl;
  stored = h.stored;
  expected = refl;
  written = h.written;
  obeyed = h.obeyed;
}
stop-Inv r StopPoint.testing o false w b h = record {
  runner = h.runner;
  stopper = h.stopper;
  stored = h.stored;
  expected = unstored r (sym h.stored);
  written = h.written;
  obeyed = h.obeyed;
}
stop-Inv r StopPoint.falling o x w b h = record {
  runner = ground (arith, exclusive o, h.runner, h.stopper);
  stopper = refl;
  stored = h.stored;
  expected = h.expected;
  written = h.written;
  obeyed = h.obeyed;
}
stop-Inv r StopPoint.sleeping o x w b h = tt
stop-Inv r StopPoint.waking none x w b h = record {
  runner = h.runner;
  stopper = refl;
  stored = h.stored;
  expected = refl;
  written = h.written;
  obeyed = refl;
}
stop-Inv r StopPoint.waking (some o) x w b h = tt
stop-Inv r (StopPoint.returning a) o x w b h = tt

stray-Inv :
    (r : RunPoint) (p : StopPoint) (o : Option Owner) (x w : Bool)
    → Inv (record { run = r; stop = p; exited = x; owner = o; sent = w })
    → Keeps (stray_wake (record { run = r; stop = p; exited = x; owner = o; sent = w }))
unfolding stray_wake stop_owns counts_on_it has_written has_succeeded
stray-Inv r StopPoint.sleeping o x w h = record {
  runner = h.runner;
  stopper = h.stopper;
  stored = h.stored;
  expected = refl;
  written = h.written;
  obeyed = refl;
}
stray-Inv r StopPoint.writing o x w h = tt
stray-Inv r StopPoint.acquiring o x w h = tt
stray-Inv r StopPoint.testing o x w h = tt
stray-Inv r StopPoint.falling o x w h = tt
stray-Inv r StopPoint.waking o x w h = tt
stray-Inv r (StopPoint.returning b) o x w h = tt

Step-Inv : {s t : Shared} → Step s t → Inv s → Inv t
Step-Inv {s} {t} (runs e) h =
    Keeps-some (run_step s) t e (run-Inv s.run s.stop s.owner s.exited s.sent h)
Step-Inv {s} {t} (stops writes e) h =
    Keeps-some (stop_step writes s) t e (stop-Inv s.run s.stop s.owner s.exited s.sent writes h)

Reach-Inv : {s : Shared} → Reach s → Inv s
unfolding has_stored has_notified run_owns stop_owns counts_on_it has_written is_owned has_succeeded
Reach-Inv start = record {
  runner = refl;
  stopper = refl;
  stored = refl;
  expected = refl;
  written = refl;
  obeyed = refl;
}
Reach-Inv (later r st) = Step-Inv st (Reach-Inv r)
Reach-Inv (strays {s} {t} r e) =
    Keeps-some (stray_wake s) t e (stray-Inv s.run s.stop s.owner s.exited s.sent (Reach-Inv r))
