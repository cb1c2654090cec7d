-- ===== src/TcpServer/Serving.antt =====
-- `TcpServer::start` and the accept path up to the worker's queue (server/src/TcpServer.cpp).
use remote_dict.Prelude.{
  ℕ, ◌<◌, ◌≡◌, refl, Bool, true, false, some, [], get_elem?, set_elem, arith, ℤ, pos, negsuc,
  u32_mod,
}
use remote_dict.Text.{Text}
use remote_dict.BloomFilter.{BloomFilter, NoFalseNegatives}
use remote_dict.Dictionary
use remote_dict.Dictionary.{Dictionary, max_dict_size}
use remote_dict.Dictionary.Refinement.{enable_bloom_filter_lem}
use remote_dict.TcpFlow.Semantics.{IsSound}
use remote_dict.TcpFlow.Callback.{ev_read}
use remote_dict.ServiceThread.{Thread, new_thread, add_fd_to_ev_loop}
use remote_dict.ServiceWorker.{Worker}
use remote_dict.ServiceWorker
use remote_dict.WorkerManager.{WorkerManager, round_robin, new_manager, init_workers}
use remote_dict.WorkerManager.Dispatch.{IsRunning, init_workers-IsRunning, dispatch_fd-round_robin}
use remote_dict.WorkerManager.RoundRobin.{following}
use remote_dict.Listener.{SocketCalls, Fcntl, new_listener, on_accept, passed}
use remote_dict.Listener.Accepting.{AllSucceed, init_app-returned, NonblockWorks, on_accept_lem}
use remote_dict.TcpServer.{
  TcpServer, new_server, init_worker_manager, start_threads, enable_filter, start, server_callback,
  accept_event, uint16_of,
}

uint16_of-lt : (n : ℤ) → uint16_of n < u32_mod
unfolding uint16_of
uint16_of-lt (pos n) = omega arith
uint16_of-lt (negsuc n) = omega arith

module _ (b : BloomFilter) (laws : NoFalseNegatives b) where
  -- The pool runs in round robin order, and dictionary and counters are sound.
  pub record IsServing (s : TcpServer b) : Type 0 where
    pub manager : WorkerManager Worker
    pub dispatching : s.event_dispatcher ≡ some manager
    pub running : IsRunning manager
    pub in_turn : manager.dist_type ≡ round_robin
    pub sound : IsSound b laws s.world

  enabled-enable :
      (enable : Bool)
      → ((Dictionary.enable_bloom_filter b enable (Dictionary.init b)).bloom_filter_enabled
          ≡ enable)
        × ((Dictionary.enable_bloom_filter b enable (Dictionary.init b)).dict ≡ [])
  unfolding Dictionary.enable_bloom_filter
  enabled-enable true = (refl, refl)
  enabled-enable false = (refl, refl)

  -- With a worker count that is not 0 in 16 bits and socket calls that succeed, `start` of a new
  -- server ends with a running pool in round robin order, a valid empty dictionary with the filter
  -- as asked for, and balanced counters.
  pub start-IsServing :
      (workers port : ℤ) (ip : Text) (enable : Bool) (calls : SocketCalls) (fd : ℕ)
      → 0 < uint16_of workers
      → calls.socket ≡ some fd
      → AllSucceed calls
      → (s : TcpServer b) × (start b calls (new_server b workers ip port enable) ≡ some s)
        × IsServing s
        × (s.world.dictionary.bloom_filter_enabled ≡ enable)
        × (s.world.dictionary.dict ≡ [])
  unfolding start start_threads enable_filter init_worker_manager new_server init_workers
  start-IsServing workers port ip enable calls fd some_worker e ok =
      let (l, returns) = init_app-returned calls new_listener fd e ok in
      let (on, same) = enabled-enable enable in
      (
        enable_filter b (record (init_worker_manager b (new_server b workers ip port enable)) {
          tcp_listener = some (new_thread l);
        }),
        rw (returns, start, start_threads) refl,
        record {
          manager = init_workers ServiceWorker.init (new_manager (uint16_of workers) round_robin);
          dispatching = refl;
          running =
              init_workers-IsRunning (uint16_of workers) ServiceWorker.init round_robin some_worker
                (uint16_of-lt workers);
          in_turn = refl;
          sound = record { valid = enable_bloom_filter_lem b laws enable; balanced = refl };
        },
        on,
        same,
      )

  -- A connection that is accepted and made non-blocking while the server serves is handed to the
  -- worker that is next in turn, to no other, and the server goes on serving with its dictionary
  -- and counters as they were.
  pub accept_event-IsServing :
      (fd : ℕ) (calls : Fcntl) (sent : Bool) (s : TcpServer b)
      → NonblockWorks calls
      → (serving : IsServing s)
      → (s' : TcpServer b) × (t : Thread Worker) × (i : ℕ) × (accept_event b ev_read
            (some fd)
            calls
            sent
            s
          ≡ some s')
        × (i ≡ following serving.manager.index serving.manager.thread_count)
        × (get_elem? serving.manager.workers i ≡ some t)
        × (r : IsServing s') × (r.manager.workers
            ≡ set_elem serving.manager.workers i (add_fd_to_ev_loop sent fd t).0)
        × (s'.world ≡ s.world)
  unfolding accept_event server_callback
  accept_event-IsServing fd calls sent s ok serving =
      let m : WorkerManager Worker = serving.manager in
      let passes : on_accept ev_read (some fd) calls ≡ passed fd =
        (on_accept_lem ev_read fd (some fd) calls).0.1 (refl, refl, ok) in
      let (t, m', found, runs, put, kind, running) =
        dispatch_fd-round_robin sent fd m serving.running serving.in_turn in
      (
        record s { event_dispatcher = some m' },
        t,
        following m.index m.thread_count,
        rw (passes, accept_event)
            (rw (serving.dispatching, server_callback) (rw (runs, server_callback) refl)),
        refl,
        found,
        record {
          manager = m';
          dispatching = refl;
          running = running;
          in_turn = kind;
          sound = serving.sound;
        },
        put,
        refl,
      )
