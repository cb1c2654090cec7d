-- ===== src/ServerMain/Ending.antt =====
-- The end of the server program: `shutdown` with the waits in it (server/src/main.cpp,
-- server/src/TcpServer.cpp).
use remote_dict.Prelude.{
  ◌≡◌, refl, Bool, true, false, none, some, List, [], length, Option-cases, inl, inr,
}
use remote_dict.BloomFilter.{BloomFilter}
use remote_dict.ServiceThread.{Thread}
use remote_dict.ServiceThread.Joining.{AllExited, join_total, join_all_total}
use remote_dict.ServiceWorker.{Worker}
use remote_dict.WorkerManager.{WorkerManager, stop_workers}
use remote_dict.TcpServer.{TcpServer, shutdown}
use remote_dict.TcpServer.Connection.{worker_handlers}
use remote_dict.ServerMain.{Outcome, exits, waits, stopping, stops, listener_handlers, shut_down}

-- What `main` has come to, from a server with this pool: it waits with the server as it was, or it
-- has been told to stop, and has ended with exit code 0, behind the end of every worker whose byte
-- was written.
abbrev pub Ends :
    {b : BloomFilter} → Bool → Bool → TcpServer b → WorkerManager Worker → Outcome b → Type 0
Ends told sent s m (exits code) = ⊥
Ends told sent s m (stopping s') = ⊥
Ends true sent s m (waits s') = ⊥
Ends false sent s m (waits s') = s' ≡ s
Ends false sent s m (stops code s' threads) = ⊥
Ends true sent s m (stops code s' threads) =
    (code ≡ 0)
    × (s'.event_dispatcher ≡ some (record m { workers = [] }))
    × (length threads ≡ length m.workers)
    × (sent ≡ true → AllExited threads)

module _ (b : BloomFilter) where
  -- Where every thread is in its event loop, no `stop` waits for ever.
  pub shut_down_total :
      (sent : Bool) (s : TcpServer b) (m : WorkerManager Worker)
      → s.event_dispatcher ≡ some m
      → (s' : TcpServer b) × (threads : List (Thread Worker)) × (shut_down b sent true s
          ≡ some (s', threads))
        × Ends true sent s m (stops 0 s' threads)
  unfolding shut_down shutdown stop_workers
  shut_down_total sent s m dispatching =
      let (threads, all, count, outs) = join_all_total (worker_handlers true []) sent m.workers in
      elim (Option-cases s.tcp_listener) [
        | inl null ↦ (
          record (shutdown b sent s).0 { tcp_listener = none },
          threads,
          rw (null, dispatching, all) refl,
          (refl, rw dispatching refl, count, outs),
        )
        | inr (t, listening) ↦
            let (u, joins, _) = join_total listener_handlers sent t in
            (
              record (shutdown b sent s).0 { tcp_listener = some u },
              threads,
              rw (listening, dispatching, joins, all) refl,
              (refl, rw dispatching refl, count, outs),
            )
      ]
