-- ===== src/WorkerManager.antt =====
-- server/include/WorkerManager.h and server/src/WorkerManager.cpp: the pool of worker threads and
-- the choice of the worker for a new client. `none` is undefined behaviour: a division by a
-- thread count of 0, or an access past the vector of workers.
pub mod RoundRobin
pub mod LeastLoaded
pub mod Dispatch
use remote_dict.Prelude.{
  ℕ, zero, suc, ◌+◌, ◌%◌, Bool, true, false, Option, none, some, List, [], ◌∷◌, ◌++◌, map, length,
  get_elem?, set_elem, leb, ltb, ◌==◌, if◌then◌else◌, ◌>>=◌, u32_mod, int_max,
}
use remote_dict.ServiceThread.{
  Thread, new_thread, add_fd_to_ev_loop, stop, get_current_fd_queue_size,
}

-- `m_distType` is an `int`; the values of the enumeration are the first two.
pub data LoadDistributionType : Type 0 where
  round_robin : LoadDistributionType
  dist_less_loaded_worker : LoadDistributionType
  other : LoadDistributionType

pub record WorkerManager {ℓ} (S : Type ℓ) : Type ℓ where
  pub thread_count : ℕ
  pub index : ℕ
  pub dist_type : LoadDistributionType
  pub workers : List (Thread S)

-- One turn of the ROUND_ROBIN branch: the new index.
unfoldable pub next_index : ℕ → ℕ → Option ℕ
next_index index count = if count == 0 then none else some (((index + 1) % u32_mod) % count)

-- The loop of the DIST_LESS_LOADED_WORKER branch over the queue sizes from worker `i` on, with
-- its locals `min` and `index`. A queue has less than INT_MAX entries, so `int` holds its size.
unfoldable pub least_loaded : List ℕ → ℕ → ℕ → ℕ → ℕ
least_loaded [] i min index = index
least_loaded (queue_size ∷ sizes) i min index =
    least_loaded sizes (i + 1) (if ltb queue_size min then queue_size else min)
      (if ltb queue_size min then i else index)

module _ {ℓ} {S : Type ℓ} where
  abbrev pub new_manager : ℕ → LoadDistributionType → WorkerManager S
  new_manager count type = record {
    thread_count = count;
    index = 0;
    dist_type = type;
    workers = [];
  }

  unfoldable pub start_workers : ℕ → S → List (Thread S) → List (Thread S)
  start_workers zero app workers = workers
  start_workers (suc n) app workers = start_workers n app (workers ++ (new_thread app ∷ []))

  -- `initWorkers`: each worker begins with the state `app` of a new ServiceWorker.
  unfoldable pub init_workers : S → WorkerManager S → WorkerManager S
  unfolding start_workers
  init_workers app m = record m { workers = start_workers m.thread_count app m.workers }

  -- `getWorkerIndex`: the index, and the manager with its `m_index`.
  unfoldable pub get_worker_index : WorkerManager S → Option (ℕ × WorkerManager S)
  get_worker_index m = elim m.dist_type [
    | round_robin ↦ do i ← next_index m.index m.thread_count; some (i, record m { index = i })
    | dist_less_loaded_worker ↦
        some (least_loaded (map get_current_fd_queue_size m.workers) 0 int_max 0, m)
    | other ↦ some (int_max, m)
  ]

  -- `m_workers[index]->addFdToEvLoop(fd)`; `sent` says whether the wake-up byte goes into the
  -- socket pair.
  unfoldable pub hand_over : Bool → ℕ → ℕ → WorkerManager S → Option (WorkerManager S)
  hand_over sent fd index m = do
    worker ← get_elem? m.workers index
    some (record m { workers = set_elem m.workers index (add_fd_to_ev_loop sent fd worker).0 })

  -- `loadbalanceFd`. A wrong index leaves the descriptor to nobody.
  unfoldable pub loadbalance_fd : Bool → ℕ → WorkerManager S → Option (WorkerManager S)
  loadbalance_fd sent fd m = do
    r ← get_worker_index m
    if leb m.thread_count r.0 then some r.1 else hand_over sent fd r.0 r.1

  unfoldable pub dispatch_fd : Bool → ℕ → WorkerManager S → Option (WorkerManager S)
  dispatch_fd sent fd m = loadbalance_fd sent fd m

  -- `stopWorkers`: every worker is told to stop, and the vector is cleared. The stopped threads
  -- are returned beside the manager.
  unfoldable pub stop_workers : Bool → WorkerManager S → WorkerManager S × List (Thread S)
  stop_workers sent m = (record m { workers = [] }, map (λ t. (stop sent t).0) m.workers)
