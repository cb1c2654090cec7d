-- ===== src/ServerMain.antt =====
-- server/src/main.cpp: the options of the server, its signal handler and its life. The results of
-- the system calls are arguments, and so are the signals and the connections, in their order.
-- `none` is undefined behaviour, or the end of the process by an exception.
pub mod Ending
pub mod Queues
pub mod Life
pub mod Arguments
use remote_dict.Prelude.{
  ℕ, zero, suc, ◌+◌, Bool, true, false, ◌||◌, Option, none, some, List, [], ◌∷◌, ltb, ◌==◌,
  if◌then◌else◌, ◌>>=◌, ℤ, pos, negsuc,
}
use remote_dict.Text.{Text}
use remote_dict.Options.{
  Choice, help, unknown, thread, dest_ip, port, special, Parsed, refused, parsed, atoi,
}
use remote_dict.BloomFilter.{BloomFilter}
use remote_dict.ServiceThread.{Thread, Handlers, join}
use remote_dict.ServiceThread.Joining.{join_all}
use remote_dict.ServiceWorker.{Worker}
use remote_dict.TcpFlow.Callback.{ev_read}
use remote_dict.Listener.{Listener, SocketCalls, Fcntl, clean_state}
use remote_dict.TcpServer.Connection.{worker_handlers}
use remote_dict.TcpServer.{TcpServer, new_server, start, accept_event, shutdown}

-- The local variables of `main`.
pub record Settings : Type 0 where
  pub host : Text
  pub port_number : ℤ
  pub num_thread : ℤ
  pub bloom_filter : ℤ

abbrev pub no_settings : Settings
no_settings = record { host = []; port_number = pos 0; num_thread = pos 0; bloom_filter = pos 0 }

-- The loop over the options.
unfoldable pub parse_options : List Choice → Settings → Option (Parsed Settings)
parse_options [] st = some (parsed st)
parse_options (help ∷ cs) st = parse_options cs st
parse_options (thread t ∷ cs) st = do n ← atoi t; parse_options cs (record st { num_thread = n })
parse_options (dest_ip t ∷ cs) st = parse_options cs (record st { host = t })
parse_options (port t ∷ cs) st = do n ← atoi t; parse_options cs (record st { port_number = n })
parse_options (special t ∷ cs) st = do n ← atoi t; parse_options cs (record st { bloom_filter = n })
parse_options (unknown ∷ cs) st = some refused

abbrev pub sig_int : ℕ
sig_int = 2

abbrev pub sig_term : ℕ
sig_term = 15

-- `sighandler`: the new value of `done`.
unfoldable pub sighandler : ℕ → Bool → Bool
sighandler signo done = if signo == sig_term || signo == sig_int then true else done

-- `bloom_filter > 0`
unfoldable pub is_positive : ℤ → Bool
is_positive (pos n) = ltb 0 n
is_positive (negsuc n) = false

-- What happens while `main` waits: a signal, or a connection that the listener accepts.
pub data Happening : Type 0 where
  signal : ℕ → Happening
  connection : Option ℕ → Fcntl → Bool → Happening

-- How far `main` gets: an exit code, waiting for `done`, waiting in `shutdown` for a thread that
-- does not end, or the end behind `shutdown`, with the exit code and the threads of the workers.
pub data Outcome (b : BloomFilter) : Type 0 where
  exits : ℕ → Outcome b
  waits : TcpServer b → Outcome b
  stopping : TcpServer b → Outcome b
  stops : ℕ → TcpServer b → List (Thread Worker) → Outcome b

-- The overrides of `Listener`, which has no `processEvent`.
abbrev pub listener_handlers : Handlers Listener
listener_handlers = record { process_event = λ fd l. l; clean_state = clean_state }

module _ (b : BloomFilter) where
  -- The loop `while (!done)`, with the listener beside it, up to the end of what happens. A
  -- connection may come after the signal, before `main` wakes up.
  unfoldable pub wait_loop : List Happening → Bool → TcpServer b → Option (Bool × TcpServer b)
  unfolding sighandler
  wait_loop [] done s = some (done, s)
  wait_loop (signal signo ∷ hs) done s = wait_loop hs (sighandler signo done) s
  wait_loop (connection accepted calls sent ∷ hs) done s = do
    s' ← accept_event b ev_read accepted calls sent s
    wait_loop hs done s'

  -- `shutdown` with the waits of every `stop` in it; none if one of them does not end. `sent` says
  -- whether the bytes are written, `loops` whether the threads have got to their event loops. A
  -- worker that is told to exit makes no new flow, so that there is no address for one.
  unfoldable pub shut_down : Bool → Bool → TcpServer b → Option (TcpServer b × List (Thread Worker))
  unfolding join_all
  shut_down sent loops s = do
    listener ← elim s.tcp_listener [
      | none ↦ some none
      | some t ↦ do r ← join listener_handlers sent loops t; some (some r.0)
    ]
    threads ← elim s.event_dispatcher [
      | none ↦ some []
      | some m ↦ join_all (worker_handlers true []) sent loops m.workers
    ]
    some (record (shutdown b sent s).0 { tcp_listener = listener }, threads)

  -- `main` behind the options, with the counts and what the calls give.
  unfoldable pub run_server :
      SocketCalls → List Happening → Bool → Bool → Settings → Option (Outcome b)
  unfolding wait_loop is_positive shut_down
  run_server calls hs sent loops st = do
    s ←
        start b calls
          (new_server b st.num_thread st.host st.port_number (is_positive st.bloom_filter))
    r ← wait_loop hs false s
    some (
        if r.0
        then elim (shut_down sent loops r.1) [
          | some (s', threads) ↦ stops 0 s' threads
          | none ↦ stopping r.1
        ]
        else waits r.1)

  unfoldable pub server_main :
      ℕ → List Choice → SocketCalls → List Happening → Bool → Bool → Option (Outcome b)
  unfolding parse_options run_server
  server_main argc choices calls hs sent loops = do
    p ← parse_options choices no_settings
    elim p [
      | refused ↦ some (exits 1)
      | parsed st ↦ if ltb argc 7 then some (exits 1) else run_server calls hs sent loops st
    ]
