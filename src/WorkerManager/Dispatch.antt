-- ===== src/WorkerManager/Dispatch.antt =====
-- `WorkerManager::dispatchFd` on a pool of started workers (server/src/WorkerManager.cpp).
use remote_dict.Prelude.{
  ℕ, zero, suc, ◌+◌, ◌<◌, ◌≡◌, refl, ◌∙◌, Bool, some, List, [], ◌∷◌, ◌++◌, length, get_elem?,
  set_elem, length-set_elem, length-append, arith, u32_mod,
}
use remote_dict.ServiceThread.{Thread, new_thread, add_fd_to_ev_loop}
use remote_dict.WorkerManager.{
  WorkerManager, LoadDistributionType, round_robin, new_manager, start_workers, init_workers,
  get_worker_index, hand_over, loadbalance_fd, dispatch_fd,
}
use remote_dict.WorkerManager.RoundRobin.{next_index_lem, following, following-lt}

module _ {ℓ} {S : Type ℓ} where
  -- A pool in use: as many workers as the count says, and the index at one of them.
  pub record IsRunning (m : WorkerManager S) : Type ℓ where
    pub started : length m.workers ≡ m.thread_count
    pub in_range : m.index < m.thread_count
    pub counted : m.thread_count < u32_mod

  get_elem?-some :
      (xs : List (Thread S)) (i : ℕ) → i < length xs → (x : Thread S) × (get_elem? xs i ≡ some x)
  get_elem?-some [] i h = absurd (omega arith)
  get_elem?-some (x ∷ xs) zero h = (x, refl)
  get_elem?-some (x ∷ xs) (suc i) h = get_elem?-some xs i (omega arith)

  length-start_workers :
      (n : ℕ) (app : S) (workers : List (Thread S))
      → length (start_workers n app workers) ≡ length workers + n
  unfolding start_workers
  length-start_workers zero app workers = omega arith
  length-start_workers (suc n) app workers = omega (
    arith,
    length-start_workers n app (workers ++ (new_thread app ∷ [])),
    length-append workers (new_thread app ∷ []),
  )

  -- `initWorkers` of a new manager with a positive 32-bit thread count starts as many workers as
  -- the count says, with the index at one of them.
  pub init_workers-IsRunning :
      (n : ℕ) (app : S) (type : LoadDistributionType)
      → 0 < n
      → n < u32_mod
      → IsRunning (init_workers app (new_manager n type))
  unfolding init_workers
  init_workers-IsRunning n app type pos_n small = record {
    started = omega (arith, length-start_workers n app []);
    in_range = pos_n;
    counted = small;
  }

  -- On a running pool in round robin order the descriptor goes to the worker that follows the last
  -- one, no other worker changes, and the pool keeps running in that order.
  pub dispatch_fd-round_robin :
      (sent : Bool) (fd : ℕ) (m : WorkerManager S)
      → IsRunning m
      → m.dist_type ≡ round_robin
      → (t : Thread S) × (m' : WorkerManager S) × (get_elem? m.workers
            (following m.index m.thread_count)
          ≡ some t)
        × (dispatch_fd sent fd m ≡ some m')
        × (m'.workers
            ≡ set_elem m.workers (following m.index m.thread_count) (add_fd_to_ev_loop sent fd t).0)
        × (m'.dist_type ≡ round_robin)
        × IsRunning m'
  unfolding dispatch_fd loadbalance_fd get_worker_index hand_over
  dispatch_fd-round_robin sent fd m r rr =
      let i : ℕ = following m.index m.thread_count in
      let i_lt : i < m.thread_count = following-lt m.index m.thread_count r.in_range in
      let (t, e) = get_elem?-some m.workers i (omega (arith, r.started)) in
      let workers : List (Thread S) = set_elem m.workers i (add_fd_to_ev_loop sent fd t).0 in
      let m' : WorkerManager S = record m { index = i; workers = workers } in
      (
        t,
        m',
        e,
        ground (arith, next_index_lem m.index m.thread_count r.in_range r.counted),
        refl,
        rr,
        record {
          started = length-set_elem m.workers i (add_fd_to_ev_loop sent fd t).0 ∙ r.started;
          in_range = i_lt;
          counted = r.counted;
        },
      )
