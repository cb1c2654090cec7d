-- ===== src/ServiceThread/Wakeups/Progress.antt =====
-- The worker's steps on the queue and the socket pair (`onEvent` of
-- server/src/ServiceThread.cpp) from a state that the interleaving reaches.
use mathlib.Core.Bool.{true≢false}
use remote_dict.Prelude.{
  ℕ, zero, suc, ◌+◌, ◌*◌, ◌≤◌, ◌<◌, ◌≡◌, ◌≢◌, refl, sym, ap, subst, ◌∙◌, ◌⊎◌, inl, inr, Bool, true,
  false, List, [], ◌∷◌, ◌++◌, length, arith, append-nil, append_assoc, if◌then◌else◌,
}
use remote_dict.ServiceThread.{
  wake_client, wake_exit, write_wake, push_fd, stop, on_byte, stop_thread, end_run,
}
use remote_dict.ServiceThread.Wakeups.{
  System, Step, writes_byte, pushes, stops, reads_client, reads_exit, locks, takes, unlocks, leaves,
  Reach, here, next, polling, locking, draining, ended, free, has_client, no_lost_wakeup,
  handed_over_in_order, WorkerPc, take_front,
}

-- A step that the worker takes.
abbrev pub IsWorkers : {s t : System} → Step s t → Type 0
IsWorkers (writes_byte fd f d e) = ⊥
IsWorkers (pushes fd f e) = ⊥
IsWorkers (stops sent e) = ⊥
IsWorkers (reads_client rest p w e) = Unit
IsWorkers (reads_exit rest p w e) = Unit
IsWorkers (locks l f e) = Unit
IsWorkers (takes fd rest d q e) = Unit
IsWorkers (unlocks d q e) = Unit
IsWorkers (leaves p l e) = Unit

-- So many steps of the worker in a row.
pub data WorkerSteps (u : System) : ℕ → System → Type 0 where
  done : WorkerSteps u zero u
  step :
      {n : ℕ} {s t : System} (st : Step s t)
      → IsWorkers st
      → WorkerSteps u n t
      → WorkerSteps u (suc n) s

abbrev pub CanStep : System → Type 0
CanStep s = (t : System) × (st : Step s t) × IsWorkers st

abbrev AllClient : List ℕ → Type 0
AllClient [] = Unit
AllClient (x ∷ xs) = (x ≡ wake_client) × AllClient xs

AllClient-append : (xs : List ℕ) → AllClient xs → AllClient (xs ++ (wake_client ∷ []))
AllClient-append [] h = (refl, tt)
AllClient-append (y ∷ xs) (e, h) = (e, AllClient-append xs h)

exit_is_no_client : wake_exit ≢ wake_client
exit_is_no_client e = absurd (ground arith)

-- A thread that was not told to exit is in its loop, and no byte tells it to.
abbrev IsCalm : System → Type 0
IsCalm s =
    s.process_exiting ≡ false → AllClient s.wakes × (s.loop_exit ≡ false) × (s.worker ≢ ended)

Step-IsCalm : {s t : System} → Step s t → IsCalm s → IsCalm t
unfolding write_wake push_fd stop on_byte take_front end_run stop_thread
Step-IsCalm {s} {t} (writes_byte fd f d e) h =
    rw e (λ off. let (known, stays, runs) = h off in (AllClient-append s.wakes known, stays, runs))
Step-IsCalm {s} {t} (pushes fd f e) h = rw e h
Step-IsCalm {s} {t} (stops true e) h = rw e (λ off. absurd (cc))
Step-IsCalm {s} {t} (stops false e) h = rw e (λ off. absurd (cc))
Step-IsCalm {s} {t} (reads_client rest p w e) h = rw e (λ off.
    let (known, stays, runs) = h off in ((subst AllClient w known).1, stays, λ left. absurd (cc)))
Step-IsCalm {s} {t} (reads_exit rest p w e) h = rw e (λ off.
    let (known, stays, runs) = h off in absurd (exit_is_no_client (subst AllClient w known).0))
Step-IsCalm {s} {t} (locks l f e) h =
    rw e (λ off. let (known, stays, runs) = h off in (known, stays, λ left. absurd (cc)))
Step-IsCalm {s} {t} (takes fd rest d q e) h = rw e h
Step-IsCalm {s} {t} (unlocks d q e) h =
    rw e (λ off. let (known, stays, runs) = h off in (known, stays, λ left. absurd (cc)))
Step-IsCalm {s} {t} (leaves p l e) h = rw e (λ off. let (known, stays, runs) = h off in absurd (cc))

Reach-IsCalm : {s : System} → Reach s → IsCalm s
Reach-IsCalm here = λ off. (tt, refl, λ left. absurd (cc))
Reach-IsCalm (next r st) = Step-IsCalm st (Reach-IsCalm r)

-- What is left for the worker to do.
unfoldable point : WorkerPc → ℕ
point ended = 0
point polling = 1
point draining = 2
point locking = 3

point-le : (w : WorkerPc) → point w ≤ 3
unfolding point
point-le ended = omega arith
point-le polling = omega arith
point-le draining = omega arith
point-le locking = omega arith

unfoldable measure : System → ℕ
unfolding point
measure s = 3 * length s.wakes + length s.queue + point s.worker

Step-measure : {s t : System} (st : Step s t) → IsWorkers st → measure t < measure s
unfolding measure point on_byte take_front end_run stop_thread
Step-measure {s} {t} (writes_byte fd f d e) h = absurd h
Step-measure {s} {t} (pushes fd f e) h = absurd h
Step-measure {s} {t} (stops sent e) h = absurd h
Step-measure {s} {t} (reads_client rest p w e) h =
    rw e (omega (arith, ap (length {A = ℕ}) w, ap point p))
Step-measure {s} {t} (reads_exit rest p w e) h = rw e (omega (arith, ap (length {A = ℕ}) w))
Step-measure {s} {t} (locks l f e) h = rw e (omega (arith, ap point l))
Step-measure {s} {t} (takes fd rest d q e) h = rw e (omega (arith, ap (length {A = ℕ}) q))
Step-measure {s} {t} (unlocks d q e) h = rw e (omega (arith, ap point d))
Step-measure {s} {t} (leaves p l e) h = rw e (omega (arith, ap point p))

-- What the worker leaves as it was, and that no descriptor is lost while it is not told to exit.
record Keeps (s t : System) : Type 0 where
  unmoved : t.accepted ≡ s.accepted
  listening : t.listener ≡ s.listener
  untold : t.process_exiting ≡ s.process_exiting
  opens : s.process_exiting ≡ false → t.app.opened ++ t.queue ≡ s.app.opened ++ s.queue

Step-Keeps : {s t : System} (st : Step s t) → IsWorkers st → Keeps s t
unfolding on_byte take_front end_run stop_thread
Step-Keeps {s} {t} (writes_byte fd f d e) h = absurd h
Step-Keeps {s} {t} (pushes fd f e) h = absurd h
Step-Keeps {s} {t} (stops sent e) h = absurd h
Step-Keeps {s} {t} (reads_client rest p w e) h =
    rw e (record { unmoved = refl; listening = refl; untold = refl; opens = λ off. refl })
Step-Keeps {s} {t} (reads_exit rest p w e) h =
    rw e (record { unmoved = refl; listening = refl; untold = refl; opens = λ off. refl })
Step-Keeps {s} {t} (locks l f e) h =
    rw e (record { unmoved = refl; listening = refl; untold = refl; opens = λ off. refl })
Step-Keeps {s} {t} (takes fd rest d q e) h = rw e (record {
  unmoved = refl;
  listening = refl;
  untold = refl;
  opens = λ off.
      ap (λ (b : Bool). (if b then s.app.opened else s.app.opened ++ (fd ∷ [])) ++ rest) off
      ∙ (append_assoc s.app.opened (fd ∷ []) rest ∙ ap (◌++◌ s.app.opened) (sym q));
})
Step-Keeps {s} {t} (unlocks d q e) h =
    rw e (record { unmoved = refl; listening = refl; untold = refl; opens = λ off. refl })
Step-Keeps {s} {t} (leaves p l e) h =
    rw e (record { unmoved = refl; listening = refl; untold = refl; opens = λ off. refl })

WorkerSteps-Reach : {u s : System} {n : ℕ} → Reach s → WorkerSteps u n s → Reach u
WorkerSteps-Reach r done = r
WorkerSteps-Reach r (step st own rest) = WorkerSteps-Reach (next r st) rest

WorkerSteps-measure : {u s : System} {n : ℕ} → WorkerSteps u n s → n + measure u ≤ measure s
WorkerSteps-measure done = omega arith
WorkerSteps-measure (step st own rest) =
    omega (arith, Step-measure st own, WorkerSteps-measure rest)

WorkerSteps-Keeps : {u s : System} {n : ℕ} → WorkerSteps u n s → Keeps s u
WorkerSteps-Keeps done = record {
  unmoved = refl;
  listening = refl;
  untold = refl;
  opens = λ off. refl;
}
WorkerSteps-Keeps (step st own rest) =
    let k = Step-Keeps st own in
    let k' = WorkerSteps-Keeps rest in
    record {
      unmoved = k'.unmoved ∙ k.unmoved;
      listening = k'.listening ∙ k.listening;
      untold = k'.untold ∙ k.untold;
      opens = λ off. k'.opens (k.untold ∙ off) ∙ k.opens off;
    }

-- The worker is in its loop, the queue is empty, and its descriptors were given to `processEvent`,
-- which made a flow for each, in order; the listener has done nothing.
pub record IsDrained (s t : System) : Type 0 where
  pub polls : t.worker ≡ polling
  pub emptied : t.queue ≡ []
  pub given : t.app.given ≡ s.app.given ++ s.queue
  pub opened : t.app.opened ≡ s.app.opened ++ s.queue
  pub unmoved : t.accepted ≡ s.accepted

-- A worker without a step of its own has nothing to drain.
goes_on :
    (u : System) (w : WorkerPc) (q wakes : List ℕ)
    → Reach u
    → u.listener ≡ free
    → u.process_exiting ≡ false
    → u.worker ≡ w
    → u.queue ≡ q
    → u.wakes ≡ wakes
    → CanStep u ⊎ ((u.worker ≡ polling) × (u.queue ≡ []))
unfolding has_client
goes_on u ended q wakes r f off at e y = let (_, _, runs) = Reach-IsCalm r off in absurd (runs at)
goes_on u locking q wakes r f off at e y = inl (_, locks at f refl, tt)
goes_on u draining [] wakes r f off at e y = inl (_, unlocks at e refl, tt)
goes_on u draining (fd ∷ rest) wakes r f off at e y = inl (_, takes fd rest at e refl, tt)
goes_on u polling q (x ∷ rest) r f off at e y =
    let (known, _, _) = Reach-IsCalm r off in
    let c : x ≡ wake_client = (subst AllClient y known).0 in
    inl (_, reads_client rest at (y ∙ ap (λ z. z ∷ rest) c) refl, tt)
goes_on u polling [] [] r f off at e y = inr (at, e)
goes_on u polling (fd ∷ q) [] r f off at e y = elim (no_lost_wakeup r (λ n. absurd (cc))) [
  | inl h ↦ absurd (true≢false (sym h ∙ ap has_client y))
  | inr (inl busy) ↦ absurd (cc)
  | inr (inr busy) ↦ absurd (cc)
]

-- From every reachable state in which the listener does not hold the lock and the thread was not
-- told to exit, whatever steps the worker takes alone: these are at most three for each byte in the
-- socket pair, one for each descriptor in the queue and three; and where the worker cannot go on,
-- it is in its loop with an empty queue, has given the descriptors to `processEvent` in order, and
-- has made a flow for each.
pub queue_drains :
    {s u : System} {n : ℕ}
    → Reach s
    → s.listener ≡ free
    → s.process_exiting ≡ false
    → WorkerSteps u n s
    → (n ≤ 3 * length s.wakes + length s.queue + 3) × (CanStep u ⊎ IsDrained s u)
unfolding measure
queue_drains {s} {u} {n} r f off steps =
    let k = WorkerSteps-Keeps steps in
    let r' = WorkerSteps-Reach r steps in
    (
      omega (arith, WorkerSteps-measure steps, point-le s.worker),
      elim (goes_on u u.worker u.queue u.wakes r' (k.listening ∙ f) (k.untold ∙ off) refl refl
          refl) [
            | inl can ↦ inl can
            | inr (polls, emptied) ↦ inr (record {
              polls = polls;
              emptied = emptied;
              given =
                  sym (append-nil u.app.given)
                  ∙ (ap (◌++◌ u.app.given) (sym emptied)
                      ∙ (handed_over_in_order r' ∙ (k.unmoved ∙ sym (handed_over_in_order r))));
              opened =
                  sym (append-nil u.app.opened)
                  ∙ (ap (◌++◌ u.app.opened) (sym emptied) ∙ k.opens off);
              unmoved = k.unmoved;
            })
          ],
    )
