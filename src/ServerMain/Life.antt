-- ===== src/ServerMain/Life.antt =====
-- The life of the server program (server/src/main.cpp) from its options to its shutdown.
use remote_dict.Prelude.{
  ◌∙◌, ℕ, ◌≡◌, ◌≤◌, refl, Bool, true, false, ◌+◌, ◌||◌, none, some, List, [], ◌∷◌, ltb, ◌==◌, ℤ,
  arith,
}
use remote_dict.Text.{Text}
use remote_dict.BloomFilter.{BloomFilter}
use remote_dict.Options.{Choice, parsed}
use remote_dict.Listener.{SocketCalls, Fcntl, new_listener, on_accept, passed}
use remote_dict.Listener.Accepting.{AllSucceed, NonblockWorks, on_accept_lem, init_app-returned}
use remote_dict.TcpFlow.Callback.{ev_read}
use remote_dict.TcpServer.{
  TcpServer, uint16_of, new_server, start, accept_event, server_callback, start_threads,
  enable_filter, init_worker_manager,
}
use remote_dict.WorkerManager.{
  WorkerManager, round_robin, next_index, dispatch_fd, loadbalance_fd, get_worker_index,
  init_workers,
}
use remote_dict.ServiceThread.{new_thread}
use remote_dict.ServiceWorker.{Worker}
use remote_dict.ServerMain.{
  Settings, no_settings, parse_options, sig_int, sig_term, is_positive, Happening, signal,
  connection, waits, wait_loop, run_server, server_main,
}

-- Every connection is accepted and made non-blocking, and its byte goes into the socket pair of the
-- worker.
abbrev pub AllAccepted : List Happening → Type 0
AllAccepted [] = Unit
AllAccepted (signal signo ∷ hs) = AllAccepted hs
AllAccepted (connection accepted calls sent ∷ hs) =
    ((fd : ℕ) × (accepted ≡ some fd)) × NonblockWorks calls × (sent ≡ true) × AllAccepted hs

-- A SIGTERM or a SIGINT is among them.
unfoldable pub is_told : List Happening → Bool
is_told [] = false
is_told (signal signo ∷ hs) = signo == sig_term || signo == sig_int || is_told hs
is_told (connection accepted calls sent ∷ hs) = is_told hs

-- How many connections are among them.
unfoldable pub connections : List Happening → ℕ
connections [] = 0
connections (signal signo ∷ hs) = connections hs
connections (connection accepted calls sent ∷ hs) = connections hs + 1

module _ (b : BloomFilter) where
  -- `main` with options that it accepts.
  server_main-runs :
      (argc : ℕ) (choices : List Choice) (st : Settings) (calls : SocketCalls) (hs : List Happening)
      (sent loops : Bool)
      → parse_options choices no_settings ≡ some (parsed st)
      → 7 ≤ argc
      → server_main b argc choices calls hs sent loops ≡ run_server b calls hs sent loops st
  unfolding server_main
  server_main-runs argc choices st calls hs sent loops options words =
      let enough : ltb argc 7 ≡ false = ground arith in rw options (rw enough refl)

  run_server-waits :
      (calls : SocketCalls) (hs : List Happening) (sent loops : Bool) (st : Settings)
      (s s' : TcpServer b)
      → start b calls
          (new_server b st.num_thread st.host st.port_number (is_positive st.bloom_filter))
        ≡ some s
      → wait_loop b hs false s ≡ some (false, s')
      → run_server b calls hs sent loops st ≡ some (waits s')
  unfolding run_server
  run_server-waits calls hs sent loops st s s' starts waited = rw starts (rw waited refl)

  run_server-none :
      (calls : SocketCalls) (hs : List Happening) (sent loops : Bool) (st : Settings)
      (s : TcpServer b)
      → start b calls
          (new_server b st.num_thread st.host st.port_number (is_positive st.bloom_filter))
        ≡ some s
      → wait_loop b hs false s ≡ none
      → run_server b calls hs sent loops st ≡ none
  unfolding run_server
  run_server-none calls hs sent loops st s starts waited = rw starts (rw waited refl)

  -- A pool of no workers cannot choose one.
  accept_event-none :
      (fd : ℕ) (calls : Fcntl) (sent : Bool) (s : TcpServer b) (m : WorkerManager Worker)
      → NonblockWorks calls
      → s.event_dispatcher ≡ some m
      → m.dist_type ≡ round_robin
      → m.thread_count ≡ 0
      → accept_event b ev_read (some fd) calls sent s ≡ none
  unfolding accept_event server_callback dispatch_fd loadbalance_fd get_worker_index next_index
  accept_event-none fd calls sent s m ok dispatching in_turn empty =
      let passes : on_accept ev_read (some fd) calls ≡ passed fd =
        (on_accept_lem ev_read fd (some fd) calls).0.1 (refl, refl, ok) in
      rw (passes, accept_event)
        (rw (dispatching, server_callback)
          (rw (in_turn, get_worker_index) (rw (empty, next_index) refl)))

  start-idle :
      (workers p : ℤ) (ip : Text) (enable : Bool) (calls : SocketCalls) (fd : ℕ)
      → uint16_of workers ≡ 0
      → calls.socket ≡ some fd
      → AllSucceed calls
      → (s : TcpServer b) × (start b calls (new_server b workers ip p enable) ≡ some s)
        × ((m : WorkerManager Worker) × (s.event_dispatcher ≡ some m)
            × (m.dist_type ≡ round_robin)
            × (m.thread_count ≡ 0))
  unfolding start start_threads enable_filter init_worker_manager new_server init_workers
  start-idle workers p ip enable calls fd idle e ok =
      let (l, returns) = init_app-returned calls new_listener fd e ok in
      (
        enable_filter b (record (init_worker_manager b (new_server b workers ip p enable)) {
          tcp_listener = some (new_thread l);
        }),
        rw (returns, start, start_threads) refl,
        (_, refl, refl, idle),
      )

  -- With a worker count that is 0 in 16 bits the server starts, and the first connection that is
  -- accepted and made non-blocking is undefined behaviour.
  pub server_main-no_workers :
      (argc : ℕ) (choices : List Choice) (st : Settings) (calls : SocketCalls) (hs : List Happening)
      (sent sent' loops : Bool) (fd fd' : ℕ) (fcntl : Fcntl)
      → parse_options choices no_settings ≡ some (parsed st)
      → 7 ≤ argc
      → uint16_of st.num_thread ≡ 0
      → calls.socket ≡ some fd
      → AllSucceed calls
      → NonblockWorks fcntl
      → ((s : TcpServer b) × (server_main b argc choices calls [] sent loops ≡ some (waits s)))
        × (server_main b argc choices calls (connection (some fd') fcntl sent' ∷ hs) sent loops
            ≡ none)
  unfolding wait_loop
  server_main-no_workers argc choices st calls hs sent sent' loops fd fd' fcntl options words idle e
        ok nonblock =
      let (s, starts, (m, dispatching, in_turn, empty)) =
        start-idle st.num_thread st.port_number st.host (is_positive st.bloom_filter) calls fd idle
          e ok in
      (
        (
          s,
          server_main-runs argc choices st calls [] sent loops options words
              ∙ run_server-waits calls [] sent loops st s s starts refl,
        ),
        server_main-runs argc choices st calls (connection (some fd') fcntl sent' ∷ hs) sent loops
              options words
            ∙ run_server-none calls (connection (some fd') fcntl sent' ∷ hs) sent loops st s starts
                (rw (accept_event-none fd' fcntl sent' s m nonblock dispatching in_turn empty)
                  refl),
      )
