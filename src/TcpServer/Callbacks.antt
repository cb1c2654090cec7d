-- ===== src/TcpServer/Callbacks.antt =====
-- The whole server at work: the callbacks of the listener's and the workers' event loops
-- (server/src/Listener.cpp, server/src/ServiceThread.cpp, server/src/TcpFlow.cpp), one after the
-- other in any order. The addresses of new flows come from an allocator.
pub mod Health
pub mod Reachable
pub mod Replies
use remote_dict.Prelude.{
  ℕ, zero, suc, ◌<◌, ◌≡◌, refl, ap, ◌∙◌, sym, subst, Bool, true, false, Option, none, some, List,
  [], ◌∷◌, ◌++◌, length, get_elem?, set_elem, arith, ◌⊎◌, inl, inr, Bool-cases, ◌==◌, if◌then◌else◌,
  length-set_elem, ℤ,
}
use remote_dict.Text.{Text}
use remote_dict.UnorderedMap.{find}
use remote_dict.BloomFilter.{BloomFilter, NoFalseNegatives}
use remote_dict.Payload.{Codec}
use remote_dict.TcpFlow.Buffer.{Flow, Read}
use remote_dict.TcpFlow.Write.{Write}
use remote_dict.TcpFlow.Callback.{Done, data_event}
use remote_dict.TcpFlow.Requests.{World}
use remote_dict.TcpFlow.Semantics.{IsSound}
use remote_dict.TcpFlow.Arbitrary.{data_event-IsSound}
use remote_dict.ServiceThread.{
  Thread, Handlers, new_thread, add_fd_to_ev_loop, write_wake, push_fd, on_event, on_byte,
  drain_queue, drain, stop_thread, wake_exit,
}
use remote_dict.ServiceWorker.{Worker, process_event, clean_state, client_event}
use remote_dict.ServiceWorker
use remote_dict.ServiceWorker.Sessions.{
  IsSafe, process_event-IsSafe, clean_state_lem, client_event-IsSafe,
}
use remote_dict.WorkerManager.{WorkerManager, dispatch_fd}
use remote_dict.WorkerManager.RoundRobin.{following}
use remote_dict.WorkerManager.Dispatch.{IsRunning}
use remote_dict.Listener.{Fcntl, SocketCalls}
use remote_dict.TcpServer.{TcpServer, accept_event}
use remote_dict.TcpServer.Serving.{IsServing, accept_event-IsServing}

-- The memory of a live flow is not given to another one.
pub record IsAllocator (new_address : Worker → Text) : Type 0 where
  pub unused : (w : Worker) → find (new_address w) w.tcp_sessions ≡ none

-- The overrides of `ServiceWorker`, with the allocator.
abbrev pub allocating : (Worker → Text) → Bool → Handlers Worker
allocating new_address exiting = record {
  process_event = λ fd w. process_event exiting (new_address w) fd w;
  clean_state = clean_state;
}

module _ (b : BloomFilter) where
  -- Worker `i` of the pool, and the server with another one in its place.
  abbrev pub worker_at : TcpServer b → ℕ → Option (Thread Worker)
  worker_at s i = elim s.event_dispatcher [ none ↦ none | some m ↦ get_elem? m.workers i ]

  unfoldable pub set_worker : ℕ → Thread Worker → TcpServer b → TcpServer b
  set_worker i t s = elim s.event_dispatcher [
    | none ↦ s
    | some m ↦ record s { event_dispatcher = some (record m { workers = set_elem m.workers i t }) }
  ]

module _ (b : BloomFilter) (codec : Codec) (alloc : ℕ → Bool) (new_address : Worker → Text) where
  -- A callback: of the listener for an event, of a worker for its socket pair, or of a worker for
  -- a registered event of a client, with all that the system calls give.
  pub data Step (s t : TcpServer b) : Type 0 where
    accepts :
        (ev : ℕ) (accepted : Option ℕ) (calls : Fcntl) (sent : Bool)
        → accept_event b ev accepted calls sent s ≡ some t
        → Step s t
    wakes :
        (i : ℕ) (w : Thread Worker)
        → worker_at b s i ≡ some w
        → t ≡ set_worker b i (on_event (allocating new_address w.process_exiting) w) s
        → Step s t
    serves :
        (i : ℕ) (w : Thread Worker) (before after : List (ℕ × Text)) (e : ℕ × Text) (ev : ℕ)
        (reads : List Read) (writes : List Write) (app : Worker) (world : World b)
        → worker_at b s i ≡ some w
        → w.app.events ≡ before ++ (e ∷ after)
        → client_event b codec alloc e ev reads writes w.app s.world ≡ some (app, world)
        → t ≡ record (set_worker b i (record w { app = app }) s) { world = world }
        → Step s t

  pub data Steps (s : TcpServer b) : TcpServer b → Type 0 where
    here : Steps s s
    next : {t u : TcpServer b} → Steps s t → Step t u → Steps s u
