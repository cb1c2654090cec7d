-- ===== src/ServiceThread/Wakeups.antt =====
-- The hand-over of descriptors from the listener's thread to a worker (`addFdToEvLoop`, `onEvent`
-- and the end of `run` in server/src/ServiceThread.cpp, `processEvent` of
-- server/src/ServiceWorker.cpp) as an interleaving: the listener writes the byte and then pushes,
-- both under the lock; the worker reads a byte without the lock and then takes it, and gives one
-- descriptor after the other to `processEvent`; `stop` takes no lock of theirs.
pub mod Progress
use remote_dict.Prelude.{
  ℕ, ◌≡◌, ◌≢◌, refl, sym, ap, ◌∙◌, ◌⊎◌, inl, inr, Bool, true, false, List, [], ◌∷◌, ◌++◌,
  append_assoc, append-nil, arith, ◌==◌, if◌then◌else◌,
}
use remote_dict.ServiceThread.{
  Handlers, Thread, new_thread, wake_client, wake_exit, write_wake, push_fd, stop, on_byte, end_run,
}

-- Where the worker stands: in its event loop, before the lock with a client byte that it has read,
-- under the lock, and behind the event loop.
pub data WorkerPc : Type 0 where
  polling : WorkerPc
  locking : WorkerPc
  draining : WorkerPc
  ended : WorkerPc

-- `holding fd`: the listener has the lock and has written the byte for `fd`.
pub data ListenerPc : Type 0 where
  free : ListenerPc
  holding : ℕ → ListenerPc

-- The descriptors that `processEvent` was called with, and those of them that it made a flow for.
pub record Given : Type 0 where
  pub given : List ℕ
  pub opened : List ℕ

-- The derived class of this view, by `m_processExiting`.
abbrev pub log : Bool → Handlers Given
log exiting = record {
  process_event = λ fd a. record {
    given = a.given ++ (fd ∷ []);
    opened = if exiting then a.opened else a.opened ++ (fd ∷ []);
  };
  clean_state = λ a. a;
}

-- `accepted` are the descriptors for which `addFdToEvLoop` has returned true, in order.
pub record System : Type 0 where
  pub thread : Thread Given
  pub open thread use *
  pub worker : WorkerPc
  pub listener : ListenerPc
  pub accepted : List ℕ

abbrev pub start : System
start = record {
  thread = new_thread (record { given = []; opened = [] });
  worker = polling;
  listener = free;
  accepted = [];
}

-- One turn of the loop in `onEvent`.
unfoldable pub take_front : ℕ → List ℕ → Thread Given → Thread Given
take_front fd rest t = record t {
  queue = rest;
  app = (log t.process_exiting).process_event fd t.app;
}

-- The lock is the worker's while it drains the queue, and the listener's while it holds a
-- descriptor. The event loop returns at some time after `exitLoop`.
pub data Step (s t : System) : Type 0 where
  writes_byte :
      (fd : ℕ)
      → s.listener ≡ free
      → s.worker ≢ draining
      → t ≡ record s { thread = write_wake wake_client s.thread; listener = holding fd }
      → Step s t
  pushes :
      (fd : ℕ)
      → s.listener ≡ holding fd
      → t ≡ record s {
        thread = push_fd fd s.thread;
        listener = free;
        accepted = s.accepted ++ (fd ∷ []);
      }
      → Step s t
  stops : (sent : Bool) → t ≡ record s { thread = (stop sent s.thread).0 } → Step s t
  reads_client :
      (rest : List ℕ)
      → s.worker ≡ polling
      → s.wakes ≡ wake_client ∷ rest
      → t ≡ record s { thread = record s.thread { wakes = rest }; worker = locking }
      → Step s t
  reads_exit :
      (rest : List ℕ)
      → s.worker ≡ polling
      → s.wakes ≡ wake_exit ∷ rest
      → t ≡ record s {
        thread = on_byte (log s.process_exiting) wake_exit (record s.thread { wakes = rest });
      }
      → Step s t
  locks : s.worker ≡ locking → s.listener ≡ free → t ≡ record s { worker = draining } → Step s t
  takes :
      (fd : ℕ) (rest : List ℕ)
      → s.worker ≡ draining
      → s.queue ≡ fd ∷ rest
      → t ≡ record s { thread = take_front fd rest s.thread }
      → Step s t
  unlocks : s.worker ≡ draining → s.queue ≡ [] → t ≡ record s { worker = polling } → Step s t
  leaves :
      s.worker ≡ polling
      → s.loop_exit ≡ true
      → t ≡ record s { thread = end_run s.thread; worker = ended }
      → Step s t

pub data Reach : System → Type 0 where
  here : Reach start
  next : {s t : System} → Reach s → Step s t → Reach t

-- A client byte is still to be read.
pub has_client : List ℕ → Bool
has_client [] = false
has_client (x ∷ xs) = if x == wake_client then true else has_client xs

has_client-append :
    (xs : List ℕ) (x : ℕ)
    → has_client (xs ++ (x ∷ [])) ≡ (if has_client xs then true else x == wake_client)
unfolding has_client
has_client-append [] x = ground arith
has_client-append (y ∷ xs) x = ground (arith, has_client-append xs x)

-- The worker has read a client byte, and is not through with the queue.
abbrev pub IsBusy : WorkerPc → Type 0
IsBusy w = (w ≡ locking) ⊎ (w ≡ draining)

abbrev pub IsWoken : System → Type 0
IsWoken s = (has_client s.wakes ≡ true) ⊎ IsBusy s.worker

pub record Inv (s : System) : Type 0 where
  pub waiting : (s.queue ≡ []) ⊎ IsWoken s
  pub held : (s.listener ≡ free) ⊎ ((has_client s.wakes ≡ true) ⊎ (s.worker ≡ locking))
  pub in_order : s.app.given ++ s.queue ≡ s.accepted

Step-Inv : {s t : System} → Step s t → Inv s → Inv t
unfolding has_client write_wake push_fd stop on_byte take_front end_run
Step-Inv {s} {t} (writes_byte fd f d e) v =
    let woken : has_client (s.wakes ++ (wake_client ∷ [])) ≡ true =
      ground (arith, has_client-append s.wakes wake_client) in
    rw e (record { waiting = inr (inl woken); held = inr (inl woken); in_order = v.in_order })
Step-Inv {s} {t} (pushes fd f e) v = rw e (record {
  waiting = elim v.held [
    | inl none_held ↦ absurd (cc)
    | inr (inl byte) ↦ inr (inl byte)
    | inr (inr at) ↦ inr (inr (inl at))
  ];
  held = inl refl;
  in_order = sym (append_assoc s.app.given s.queue (fd ∷ [])) ∙ ap (λ l. l ++ (fd ∷ [])) v.in_order;
})
Step-Inv {s} {t} (stops sent e) v = ground (arith, has_client-append s.wakes wake_exit)
Step-Inv {s} {t} (reads_client rest p w e) v =
    rw e (record { waiting = inr (inr (inl refl)); held = inr (inr refl); in_order = v.in_order })
Step-Inv {s} {t} (reads_exit rest p w e) v = ground arith
Step-Inv {s} {t} (locks l f e) v =
    rw e (record { waiting = inr (inr (inr refl)); held = inl f; in_order = v.in_order })
Step-Inv {s} {t} (takes fd rest d q e) v = rw e (record {
  waiting = inr (inr (inr d));
  held = v.held;
  in_order = append_assoc s.app.given (fd ∷ []) rest ∙ (ap (◌++◌ s.app.given) (sym q) ∙ v.in_order);
})
Step-Inv {s} {t} (unlocks d q e) v = ground arith
Step-Inv {s} {t} (leaves p l e) v = ground arith

Reach-Inv : {s : System} → Reach s → Inv s
Reach-Inv here = record { waiting = inl refl; held = inl refl; in_order = refl }
Reach-Inv (next r st) = Step-Inv st (Reach-Inv r)

-- No wake-up is lost: in every reachable state, also behind the end of the event loop, a descriptor
-- that waits in the queue has a client byte in the socket pair, or the worker has read one and is
-- not through with the queue.
pub no_lost_wakeup : {s : System} → Reach s → s.queue ≢ [] → IsWoken s
no_lost_wakeup r ne = ground (arith, (Reach-Inv r).waiting)

-- In every reachable state the descriptors that `processEvent` was given, followed by those that
-- wait, are those that were accepted: each is given once, in order.
pub handed_over_in_order : {s : System} → Reach s → s.app.given ++ s.queue ≡ s.accepted
handed_over_in_order r = (Reach-Inv r).in_order
