-- ===== src/TcpServer.antt =====
-- server/include/TcpServer.h and server/src/TcpServer.cpp: the server, with its listener, its
-- worker pool and the shared dictionary and counters.
pub mod Serving
pub mod Connection
pub mod Shutdown
pub mod Callbacks
use remote_dict.Prelude.{
  ℕ, suc, ◌+◌, ◌-◌, ◌%◌, Bool, true, false, Option, none, some, List, [], ◌∷◌, ◌==◌, if◌then◌else◌,
  ◌>>=◌, ℤ, pos, negsuc, u16_mod,
}
use mathlib.Core.Option
use remote_dict.Text.{Text}
use remote_dict.BloomFilter.{BloomFilter}
use remote_dict.Dictionary
use remote_dict.Stats
use remote_dict.TcpFlow.Requests.{World}
use remote_dict.ServiceThread
use remote_dict.ServiceThread.{Thread, new_thread}
use remote_dict.ServiceWorker.{Worker}
use remote_dict.ServiceWorker
use remote_dict.WorkerManager.{
  WorkerManager, round_robin, new_manager, init_workers, dispatch_fd, stop_workers,
}
use remote_dict.Listener.{
  Listener, SocketCalls, Fcntl, new_listener, init_app, returned, thrown, on_accept, ignored,
  failed, dropped, passed,
}

-- The conversion of an `int` to `uint16_t`.
unfoldable pub uint16_of : ℤ → ℕ
uint16_of (pos n) = n % u16_mod
uint16_of (negsuc n) = u16_mod - 1 - n % u16_mod

pub record TcpServer (b : BloomFilter) : Type 0 where
  pub num_worker : ℕ
  pub ip_addr : Text
  pub port : ℕ
  pub bloom_filter_enable : Bool
  pub tcp_listener : Option (Thread Listener)
  pub event_dispatcher : Option (WorkerManager Worker)
  pub world : World b

module _ (b : BloomFilter) where
  unfoldable pub new_server : ℤ → Text → ℤ → Bool → TcpServer b
  unfolding uint16_of
  new_server num_workers ip port b_enable = record {
    num_worker = uint16_of num_workers;
    ip_addr = ip;
    port = uint16_of port;
    bloom_filter_enable = b_enable;
    tcp_listener = none;
    event_dispatcher = none;
    world = record { dictionary = Dictionary.init b; stats = Stats.init };
  }

  unfoldable pub init_worker_manager : TcpServer b → TcpServer b
  init_worker_manager s = record s {
    event_dispatcher =
        some (init_workers ServiceWorker.init (new_manager s.num_worker round_robin));
  }

  -- `start` up to the last two lines: the workers and the listener's thread run, and `initApp`
  -- has its system calls behind it. An exception there is not caught, since it is thrown in the
  -- thread: `none` is the end of the process.
  unfoldable pub start_threads : SocketCalls → TcpServer b → Option (TcpServer b)
  unfolding init_worker_manager
  start_threads calls s = elim (init_app calls new_listener) [
    | returned l ↦ some (record (init_worker_manager s) { tcp_listener = some (new_thread l) })
    | thrown l ↦ none
  ]

  -- The last two lines of `start`.
  unfoldable pub enable_filter : TcpServer b → TcpServer b
  enable_filter s = record s {
    world = record s.world {
      dictionary = Dictionary.enable_bloom_filter b s.bloom_filter_enable s.world.dictionary;
    };
  }

  -- `start` where no client comes before it is over.
  unfoldable pub start : SocketCalls → TcpServer b → Option (TcpServer b)
  start calls s = do s' ← start_threads calls s; some (enable_filter s')

  -- `ServerCallback`.
  unfoldable pub server_callback : Bool → ℕ → TcpServer b → Option (TcpServer b)
  server_callback sent fd s = do
    m ← s.event_dispatcher
    m' ← dispatch_fd sent fd m
    some (record s { event_dispatcher = some m' })

  -- The accept event of the listener, whose callback is `ServerCallback`.
  unfoldable pub accept_event : ℕ → Option ℕ → Fcntl → Bool → TcpServer b → Option (TcpServer b)
  accept_event ev accepted calls sent s = elim (on_accept ev accepted calls) [
    | passed fd ↦ server_callback sent fd s
    | _ ↦ some s
  ]

  -- `shutdown`: the threads that it leaves are returned beside the server.
  unfoldable pub shutdown : Bool → TcpServer b → TcpServer b × List (Thread Worker)
  shutdown sent s =
      let listener = Option.map (λ t. (ServiceThread.stop sent t).0) s.tcp_listener in
      elim s.event_dispatcher [
        | none ↦ (record s { tcp_listener = listener }, [])
        | some m ↦
            let (m', threads) = stop_workers sent m in
            (record s { tcp_listener = listener; event_dispatcher = some m' }, threads)
      ]
