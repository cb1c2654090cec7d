-- ===== src/TcpServer/Callbacks/Health.antt =====
-- What every callback of the server keeps (server/src/Listener.cpp, server/src/ServiceThread.cpp,
-- server/src/TcpFlow.cpp).
use mathlib.Core.Option.{some-injective}
use remote_dict.Prelude.{
  ℕ, zero, suc, ◌≡◌, refl, ◌∙◌, sym, subst, Bool, true, false, Option, some, List, [], ◌∷◌,
  get_elem?, set_elem, inl, inr, Bool-cases, ◌==◌, length-set_elem,
}
use remote_dict.Text.{Text}
use remote_dict.BloomFilter.{BloomFilter, NoFalseNegatives}
use remote_dict.TcpFlow.Requests.{World}
use remote_dict.TcpFlow.Semantics.{IsSound}
use remote_dict.ServiceThread.{
  Thread, add_fd_to_ev_loop, write_wake, push_fd, on_event, on_byte, drain_queue, drain,
  stop_thread, wake_exit,
}
use remote_dict.ServiceWorker.{Worker, process_event, clean_state}
use remote_dict.ServiceWorker.Sessions.{IsSafe, process_event-IsSafe, clean_state_lem}
use remote_dict.WorkerManager.{WorkerManager}
use remote_dict.Listener.{Fcntl}
use remote_dict.TcpServer.{TcpServer, accept_event}
use remote_dict.TcpServer.Serving.{IsServing, accept_event-IsServing}
use remote_dict.Listener.{Accept, on_accept, ignored, failed, dropped, passed}
use remote_dict.Listener.Accepting.{on_accept_lem}
use remote_dict.TcpServer.Callbacks.{IsAllocator, allocating, worker_at, set_worker}

-- Every worker's events are those of its sessions.
abbrev pub AllSafe : List (Thread Worker) → Type 0
AllSafe [] = Unit
AllSafe (t ∷ ts) = IsSafe t.app × AllSafe ts

AllSafe-get_elem? :
    (ts : List (Thread Worker)) (i : ℕ) (t : Thread Worker)
    → AllSafe ts
    → get_elem? ts i ≡ some t
    → IsSafe t.app
AllSafe-get_elem? [] i t h e = absurd (cc)
AllSafe-get_elem? (x ∷ ts) zero t h e =
    subst (λ (u : Thread Worker). IsSafe u.app) (some-injective x t e) h.0
AllSafe-get_elem? (x ∷ ts) (suc i) t h e = AllSafe-get_elem? ts i t h.1 e

AllSafe-set_elem :
    (ts : List (Thread Worker)) (i : ℕ) (t : Thread Worker)
    → AllSafe ts
    → IsSafe t.app
    → AllSafe (set_elem ts i t)
AllSafe-set_elem [] i t h s = tt
AllSafe-set_elem (x ∷ ts) zero t h s = (s, h.1)
AllSafe-set_elem (x ∷ ts) (suc i) t h s = (h.0, AllSafe-set_elem ts i t h.1 s)

drain-IsSafe :
    (new_address : Worker → Text) (exiting : Bool) (fds : List ℕ) (w : Worker)
    → IsAllocator new_address
    → IsSafe w
    → IsSafe (drain (allocating new_address exiting) fds w)
unfolding drain
drain-IsSafe new_address exiting [] w fresh s = s
drain-IsSafe new_address exiting (fd ∷ fds) w fresh s =
    drain-IsSafe new_address exiting fds (process_event exiting (new_address w) fd w) fresh
      (process_event-IsSafe exiting (new_address w) fd w (fresh.unused w) s)

clean_state-IsSafe : (w : Worker) → IsSafe w → IsSafe (clean_state w)
clean_state-IsSafe w s =
    let (e, t) = clean_state_lem w s in record { distinct = rw t tt; paired = rw (e, t) refl }

pub on_event-IsSafe :
    (new_address : Worker → Text) (exiting : Bool) (t : Thread Worker) (wakes : List ℕ)
    → IsAllocator new_address
    → t.wakes ≡ wakes
    → IsSafe t.app
    → IsSafe (on_event (allocating new_address exiting) t).app
unfolding on_event on_byte drain_queue stop_thread
on_event-IsSafe new_address exiting t [] fresh e s = rw e s
on_event-IsSafe new_address exiting t (byte ∷ rest) fresh e s =
    elim (Bool-cases (byte == wake_exit)) [
      | inl e' ↦ rw (e, e') (clean_state-IsSafe t.app s)
      | inr e' ↦ rw (e, e') (drain-IsSafe new_address exiting t.queue t.app fresh s)
    ]

module _ (b : BloomFilter) (laws : NoFalseNegatives b) where
  pub record IsHealthy (s : TcpServer b) : Type 0 where
    pub serving : IsServing b laws s
    pub safe : AllSafe serving.manager.workers

  -- Another worker in the place of one.
  pub set_worker-IsHealthy :
      (s : TcpServer b) (i : ℕ) (t : Thread Worker)
      → IsHealthy s
      → IsSafe t.app
      → IsHealthy (set_worker b i t s)
  unfolding set_worker
  set_worker-IsHealthy s i t h safe =
      let m : WorkerManager Worker = h.serving.manager in
      rw h.serving.dispatching (record {
        serving = record {
          manager = record m { workers = set_elem m.workers i t };
          dispatching = refl;
          running = record {
            started = length-set_elem m.workers i t ∙ h.serving.running.started;
            in_range = h.serving.running.in_range;
            counted = h.serving.running.counted;
          };
          in_turn = h.serving.in_turn;
          sound = h.serving.sound;
        };
        safe = AllSafe-set_elem m.workers i t h.safe safe;
      })

  pub world-IsHealthy :
      (s : TcpServer b) (w : World b)
      → IsHealthy s
      → IsSound b laws w
      → IsHealthy (record s { world = w })
  world-IsHealthy s w h sound = record {
    serving = record {
      manager = h.serving.manager;
      dispatching = h.serving.dispatching;
      running = h.serving.running;
      in_turn = h.serving.in_turn;
      sound = sound;
    };
    safe = h.safe;
  }

  pub worker_at-IsSafe :
      (s : TcpServer b) (i : ℕ) (t : Thread Worker)
      → IsHealthy s
      → worker_at b s i ≡ some t
      → IsSafe t.app
  worker_at-IsSafe s i t h e =
      let found : get_elem? h.serving.manager.workers i ≡ worker_at b s i =
        rw h.serving.dispatching refl in
      AllSafe-get_elem? h.serving.manager.workers i t h.safe (found ∙ e)

  -- An event that passes nothing on changes nothing.
  NotPassed : Accept → Type 0
  NotPassed (passed fd) = ⊥
  NotPassed _ = Unit

  not_passed :
      (r : Accept) (ev : ℕ) (accepted : Option ℕ) (calls : Fcntl) (sent : Bool) (s : TcpServer b)
      → on_accept ev accepted calls ≡ r
      → NotPassed r
      → accept_event b ev accepted calls sent s ≡ some s
  unfolding accept_event NotPassed
  not_passed ignored ev accepted calls sent s e h = rw (e, accept_event) refl
  not_passed failed ev accepted calls sent s e h = rw (e, accept_event) refl
  not_passed (dropped fd) ev accepted calls sent s e h = rw (e, accept_event) refl
  not_passed (passed fd) ev accepted calls sent s e h = absurd h

  stays :
      (r : Accept) (ev : ℕ) (accepted : Option ℕ) (calls : Fcntl) (sent : Bool) (s t : TcpServer b)
      → on_accept ev accepted calls ≡ r
      → NotPassed r
      → accept_event b ev accepted calls sent s ≡ some t
      → IsHealthy s
      → IsHealthy t
  stays r ev accepted calls sent s t e h step healthy =
      subst IsHealthy (some-injective s t (sym (not_passed r ev accepted calls sent s e h) ∙ step))
        healthy

  handed_over-IsSafe :
      (sent : Bool) (fd : ℕ) (t : Thread Worker)
      → IsSafe t.app
      → IsSafe (add_fd_to_ev_loop sent fd t).0.app
  unfolding add_fd_to_ev_loop write_wake push_fd
  handed_over-IsSafe true fd t s = s
  handed_over-IsSafe false fd t s = s

  pub accept-IsHealthy :
      (r : Accept) (ev : ℕ) (accepted : Option ℕ) (calls : Fcntl) (sent : Bool) (s t : TcpServer b)
      → on_accept ev accepted calls ≡ r
      → accept_event b ev accepted calls sent s ≡ some t
      → IsHealthy s
      → IsHealthy t
  unfolding NotPassed
  accept-IsHealthy ignored ev accepted calls sent s t e step h =
      stays ignored ev accepted calls sent s t e tt step h
  accept-IsHealthy failed ev accepted calls sent s t e step h =
      stays failed ev accepted calls sent s t e tt step h
  accept-IsHealthy (dropped fd) ev accepted calls sent s t e step h =
      stays (dropped fd) ev accepted calls sent s t e tt step h
  accept-IsHealthy (passed fd) ev accepted calls sent s t e step h =
      let (reads, got, works) = (on_accept_lem ev fd accepted calls).0.0 e in
      let (s', w, i, runs, place, found, serving, put, same) =
        accept_event-IsServing b laws fd calls sent s works h.serving in
      let taken : accept_event b ev accepted calls sent s ≡ some s' = rw (reads, got) runs in
      subst IsHealthy (some-injective s' t (sym taken ∙ step)) (record {
        serving = serving;
        safe = subst AllSafe (sym put) (
            AllSafe-set_elem h.serving.manager.workers i (add_fd_to_ev_loop sent fd w).0 h.safe (
              handed_over-IsSafe sent fd w
                (AllSafe-get_elem? h.serving.manager.workers i w h.safe found)));
      })
