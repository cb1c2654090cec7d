-- ===== src/ServerMain/Queues.antt =====
-- How many descriptors wait in the queues of the pool (server/src/WorkerManager.cpp,
-- server/src/ServiceThread.cpp).
use mathlib.Core.Option.{some-injective}
use remote_dict.Prelude.{
  ℕ, zero, suc, ◌+◌, ◌≡◌, refl, ap, ◌∙◌, sym, true, some, List, [], ◌∷◌, ◌++◌, length, get_elem?,
  set_elem, length-append, arith, Bool, ℤ,
}
use remote_dict.Text.{Text}
use remote_dict.BloomFilter.{BloomFilter}
use remote_dict.ServiceThread.{Thread, new_thread, add_fd_to_ev_loop, push_fd, write_wake}
use remote_dict.ServiceWorker.{Worker}
use remote_dict.ServiceWorker
use remote_dict.WorkerManager.{WorkerManager, round_robin, new_manager, init_workers, start_workers}
use remote_dict.Listener.{SocketCalls, new_listener}
use remote_dict.Listener.Accepting.{AllSucceed, init_app-returned}
use remote_dict.TcpServer.{
  TcpServer, new_server, start, start_threads, enable_filter, init_worker_manager, uint16_of,
}

unfoldable pub queued : List (Thread Worker) → ℕ
queued [] = 0
queued (t ∷ ts) = length t.queue + queued ts

queued-append : (ts us : List (Thread Worker)) → queued (ts ++ us) ≡ queued ts + queued us
unfolding queued
queued-append [] us = omega arith
queued-append (t ∷ ts) us = omega (arith, queued-append ts us)

queued-set_elem :
    (ts : List (Thread Worker)) (i : ℕ) (t u : Thread Worker)
    → get_elem? ts i ≡ some t
    → queued (set_elem ts i u) + length t.queue ≡ queued ts + length u.queue
unfolding queued
queued-set_elem [] i t u e = absurd (cc)
queued-set_elem (x ∷ ts) zero t u e =
    omega (arith, ap (λ (y : Thread Worker). length y.queue) (some-injective x t e))
queued-set_elem (x ∷ ts) (suc i) t u e = omega (arith, queued-set_elem ts i t u e)

-- A hand-over whose byte is written adds one.
pub queued-hand_over :
    (ts : List (Thread Worker)) (i fd : ℕ) (t : Thread Worker)
    → get_elem? ts i ≡ some t
    → queued (set_elem ts i (add_fd_to_ev_loop true fd t).0) ≡ queued ts + 1
unfolding add_fd_to_ev_loop push_fd write_wake
queued-hand_over ts i fd t e = omega (
  arith,
  queued-set_elem ts i t (add_fd_to_ev_loop true fd t).0 e,
  length-append t.queue (fd ∷ []),
)

queued-start_workers :
    (n : ℕ) (ts : List (Thread Worker)) → queued (start_workers n ServiceWorker.init ts) ≡ queued ts
unfolding start_workers queued
queued-start_workers zero ts = refl
queued-start_workers (suc n) ts = omega (
  arith,
  queued-start_workers n (ts ++ (new_thread ServiceWorker.init ∷ [])),
  queued-append ts (new_thread ServiceWorker.init ∷ []),
)

-- The queues of a server that has just started are empty.
pub queued-start :
    (b : BloomFilter) (workers port : ℤ) (ip : Text) (enable : Bool) (calls : SocketCalls) (fd : ℕ)
    (s : TcpServer b) (m : WorkerManager Worker)
    → calls.socket ≡ some fd
    → AllSucceed calls
    → start b calls (new_server b workers ip port enable) ≡ some s
    → s.event_dispatcher ≡ some m
    → queued m.workers ≡ 0
unfolding start start_threads enable_filter init_worker_manager new_server init_workers queued
queued-start b workers port ip enable calls fd s m e ok starts dispatching =
    let (l, returns) = init_app-returned calls new_listener fd e ok in
    let s₁ : TcpServer b =
      enable_filter b (record (init_worker_manager b (new_server b workers ip port enable)) {
        tcp_listener = some (new_thread l);
      }) in
    let runs : start b calls (new_server b workers ip port enable) ≡ some s₁ =
      rw (returns, start, start_threads) refl in
    let same : s₁ ≡ s = some-injective s₁ s (sym runs ∙ starts) in
    let pool : init_workers ServiceWorker.init (new_manager (uint16_of workers) round_robin) ≡ m =
      some-injective _ m (ap (λ (x : TcpServer b). x.event_dispatcher) same ∙ dispatching) in
    ap (λ (x : WorkerManager Worker). queued x.workers) (sym pool)
    ∙ queued-start_workers (uint16_of workers) []
