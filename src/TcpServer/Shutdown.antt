-- ===== src/TcpServer/Shutdown.antt =====
-- `TcpServer::shutdown` (server/src/TcpServer.cpp) with `stopWorkers`
-- (server/src/WorkerManager.cpp) and what each worker does with the byte that tells it to exit
-- (server/src/ServiceThread.cpp, server/src/ServiceWorker.cpp).
use remote_dict.Prelude.{◌≡◌, ◌∙◌, refl, ap, true, some, List, [], ◌∷◌, map, length, suc}
use remote_dict.Text.{Text}
use remote_dict.BloomFilter.{BloomFilter}
use remote_dict.ServiceThread.{Thread, write_wake, stop, stop_thread, on_event, on_byte}
use remote_dict.ServiceWorker.{Worker, clean_state}
use remote_dict.ServiceWorker.Sessions.{IsSafe, clean_state_lem}
use remote_dict.WorkerManager.{WorkerManager, stop_workers}
use remote_dict.TcpServer.{TcpServer, shutdown}
use remote_dict.TcpServer.Connection.{worker_handlers, IsIdle}

-- Safe workers with nothing in their queues or their socket pairs.
abbrev pub AllQuiet : List (Thread Worker) → Type 0
AllQuiet [] = Unit
AllQuiet (t ∷ ts) = IsIdle t × IsSafe t.app × AllQuiet ts

-- The next event of the worker's socket pair ends its loop and leaves no session.
pub record Ends (addr : Text) (t : Thread Worker) : Type 0 where
  pub exiting : t.process_exiting ≡ true
  pub leaves : (on_event (worker_handlers true addr) t).loop_exit ≡ true
  pub no_events : (on_event (worker_handlers true addr) t).app.events ≡ []
  pub no_sessions : (on_event (worker_handlers true addr) t).app.tcp_sessions ≡ []

abbrev pub AllEnd : Text → List (Thread Worker) → Type 0
AllEnd addr [] = Unit
AllEnd addr (t ∷ ts) = Ends addr t × AllEnd addr ts

-- What a stopped worker makes of its byte.
exits :
    (addr : Text) (t : Thread Worker)
    → IsIdle t
    → on_event (worker_handlers true addr) (stop true t).0
      ≡ record t { process_exiting = true; wakes = []; loop_exit = true; app = clean_state t.app }
unfolding on_event on_byte stop write_wake stop_thread
exits addr t idle = rw idle.no_wakes refl

stop-Ends : (addr : Text) (t : Thread Worker) → IsIdle t → IsSafe t.app → Ends addr (stop true t).0
unfolding stop
stop-Ends addr t idle safe =
    let (no_events, no_sessions) = clean_state_lem t.app safe in
    record {
      exiting = refl;
      leaves = ap (λ (u : Thread Worker). u.loop_exit) (exits addr t idle);
      no_events = ap (λ (u : Thread Worker). u.app.events) (exits addr t idle) ∙ no_events;
      no_sessions =
          ap (λ (u : Thread Worker). u.app.tcp_sessions) (exits addr t idle) ∙ no_sessions;
    }

all_stop :
    (addr : Text) (ts : List (Thread Worker))
    → AllQuiet ts
    → AllEnd addr (map (λ (t : Thread Worker). (stop true t).0) ts)
      × (length (map (λ (t : Thread Worker). (stop true t).0) ts) ≡ length ts)
all_stop addr [] h = (tt, refl)
all_stop addr (t ∷ ts) (idle, safe, h) =
    let (ends, count) = all_stop addr ts h in ((stop-Ends addr t idle safe, ends), ap suc count)

-- Where every worker is safe and has nothing to do, and each byte goes into its socket pair, the
-- pool is empty after `shutdown`, and each of its workers is told to exit: its next event ends its
-- loop and leaves it without events and sessions.
pub shutdown_lem :
    (b : BloomFilter) (addr : Text) (s : TcpServer b) (m : WorkerManager Worker)
    → s.event_dispatcher ≡ some m
    → AllQuiet m.workers
    → (m' : WorkerManager Worker) × ((shutdown b true s).0.event_dispatcher ≡ some m')
      × (m'.workers ≡ [])
      × (length (shutdown b true s).1 ≡ length m.workers)
      × AllEnd addr (shutdown b true s).1
unfolding shutdown stop_workers
shutdown_lem b addr s m dispatching quiet =
    let (ends, count) = all_stop addr m.workers quiet in
    (
      record m { workers = [] },
      rw dispatching refl,
      refl,
      rw dispatching count,
      rw dispatching ends,
    )
