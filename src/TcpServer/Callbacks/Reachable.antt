-- ===== src/TcpServer/Callbacks/Reachable.antt =====
-- What the server keeps in every order of its callbacks, from its start on
-- (server/src/TcpServer.cpp, server/src/ServiceThread.cpp, server/src/TcpFlow.cpp).
use mathlib.Core.Option.{some-injective, none-ne-some}
use remote_dict.Prelude.{
  ℕ, zero, suc, ◌<◌, ◌≡◌, refl, ap, ◌∙◌, sym, subst, Bool, none, some, List, [], ◌∷◌, ◌++◌, inl,
  inr, ℤ,
}
use remote_dict.Text.{Text}
use remote_dict.UnorderedMap.{find}
use remote_dict.BloomFilter.{BloomFilter, NoFalseNegatives}
use remote_dict.Payload.{Codec}
use remote_dict.TcpFlow.Buffer.{Flow, Read}
use remote_dict.TcpFlow.Write.{Write}
use remote_dict.TcpFlow.Callback.{data_event}
use remote_dict.TcpFlow.Requests.{World}
use remote_dict.TcpFlow.Semantics.{IsSound}
use remote_dict.TcpFlow.Arbitrary.{data_event-IsSound}
use remote_dict.ServiceThread.{Thread, new_thread, on_event}
use remote_dict.ServiceWorker.{Worker, process_event, clean_state, client_event}
use remote_dict.ServiceWorker
use remote_dict.ServiceWorker.Sessions.{IsSafe, client_event-IsSafe}
use remote_dict.WorkerManager.{WorkerManager}
use remote_dict.Listener.{SocketCalls}
use remote_dict.TcpServer.{TcpServer}
use remote_dict.Listener.{on_accept}
use remote_dict.Listener.Accepting.{AllSucceed}
use remote_dict.TcpServer.{new_server, start, uint16_of}
use remote_dict.TcpServer.Callbacks.{
  IsAllocator, allocating, set_worker, Step, accepts, wakes, serves, Steps, here, next,
}
use remote_dict.TcpServer.{start_threads, enable_filter, init_worker_manager}
use remote_dict.TcpServer.Serving.{start-IsServing}
use remote_dict.Listener.{new_listener}
use remote_dict.Listener.Accepting.{init_app-returned}
use remote_dict.WorkerManager.{init_workers, start_workers, new_manager, round_robin}
use remote_dict.TcpServer.Callbacks.Health.{
  AllSafe, IsHealthy, on_event-IsSafe, set_worker-IsHealthy, world-IsHealthy, worker_at-IsSafe,
  accept-IsHealthy,
}

start_workers-AllSafe :
    (n : ℕ) (ws : List (Thread Worker))
    → AllSafe ws
    → AllSafe (start_workers n ServiceWorker.init ws)
unfolding start_workers
start_workers-AllSafe zero ws h = h
start_workers-AllSafe (suc n) ws h =
    start_workers-AllSafe n (ws ++ (new_thread ServiceWorker.init ∷ [])) (one_more ws h)
  where
    one_more :
        (ts : List (Thread Worker))
        → AllSafe ts
        → AllSafe (ts ++ (new_thread ServiceWorker.init ∷ []))
    one_more [] h' = (record { distinct = tt; paired = refl }, tt)
    one_more (t ∷ ts) h' = (h'.0, one_more ts h'.1)

-- The pool of a server that has started.
start-dispatcher :
    (b : BloomFilter) (workers port : ℤ) (ip : Text) (enable : Bool) (calls : SocketCalls) (fd : ℕ)
    (s : TcpServer b)
    → calls.socket ≡ some fd
    → AllSucceed calls
    → start b calls (new_server b workers ip port enable) ≡ some s
    → s.event_dispatcher
      ≡ some (init_workers ServiceWorker.init (new_manager (uint16_of workers) round_robin))
unfolding start start_threads enable_filter init_worker_manager new_server
start-dispatcher b workers port ip enable calls fd s e ok starts =
    let (l, returns) = init_app-returned calls new_listener fd e ok in
    let runs : start b calls (new_server b workers ip port enable)
        ≡ some (
            enable_filter b (record (init_worker_manager b (new_server b workers ip port enable)) {
              tcp_listener = some (new_thread l);
            })) =
      rw (returns, start, start_threads) refl in
    ap (λ (u : TcpServer b). u.event_dispatcher) (some-injective _ _ (sym starts ∙ runs))

module _ (b : BloomFilter) (laws : NoFalseNegatives b) (codec : Codec) (alloc : ℕ → Bool)
    (new_address : Worker → Text) (fresh : IsAllocator new_address) where
  client_event-none :
      (e : ℕ × Text) (ev : ℕ) (reads : List Read) (writes : List Write) (app : Worker) (f : Flow)
      (world : World b)
      → find e.1 app.tcp_sessions ≡ some f
      → data_event b codec alloc e.0 ev reads writes f world ≡ none
      → client_event b codec alloc e ev reads writes app world ≡ none
  unfolding client_event
  client_event-none e ev reads writes app f world found undefined = rw found (rw undefined refl)

  -- The callback of a client leaves its worker safe and the shared state sound.
  serves-IsSafe :
      (before after : List (ℕ × Text)) (e : ℕ × Text) (ev : ℕ) (reads : List Read)
      (writes : List Write) (app app' : Worker) (world world' : World b)
      → IsSafe app
      → IsSound b laws world
      → app.events ≡ before ++ (e ∷ after)
      → client_event b codec alloc e ev reads writes app world ≡ some (app', world')
      → IsSafe app' × IsSound b laws world'
  serves-IsSafe before after e ev reads writes app app' world world' safe sound registered runs =
      let (f, found, result) =
        client_event-IsSafe b codec alloc before after e ev reads writes app world safe
          registered in
      elim result [
        | inl undefined ↦ absurd (
            none-ne-some (app', world')
              (sym (client_event-none e ev reads writes app f world found undefined) ∙ runs))
        | inr (d, w, called, event, closed, safe') ↦
            let same : (w, d.world) ≡ (app', world') = some-injective _ _ (sym event ∙ runs) in
            (
              subst IsSafe (ap (λ (r : Worker × World b). r.0) same) safe',
              subst (IsSound b laws) (ap (λ (r : Worker × World b). r.1) same) (
                  data_event-IsSound b laws codec alloc e.0 ev reads writes f world d sound called),
            )
      ]

  Step-IsHealthy :
      (s t : TcpServer b)
      → Step b codec alloc new_address s t
      → IsHealthy b laws s
      → IsHealthy b laws t
  Step-IsHealthy s t (accepts ev accepted calls sent e) h =
      accept-IsHealthy b laws (on_accept ev accepted calls) ev accepted calls sent s t refl e h
  Step-IsHealthy s t (wakes i w at e) h = subst (IsHealthy b laws) (sym e) (
      set_worker-IsHealthy b laws s i (on_event (allocating new_address w.process_exiting) w) h (
        on_event-IsSafe new_address w.process_exiting w w.wakes fresh refl
          (worker_at-IsSafe b laws s i w h at)))
  Step-IsHealthy s t (serves i w before after e ev reads writes app world at registered runs same)
        h =
      let (safe, sound) =
        serves-IsSafe before after e ev reads writes w.app app s.world world
          (worker_at-IsSafe b laws s i w h at) h.serving.sound registered runs in
      subst (IsHealthy b laws) (sym same) (
        world-IsHealthy b laws (set_worker b i (record w { app = app }) s) world
          (set_worker-IsHealthy b laws s i (record w { app = app }) h safe) sound)

  Steps-IsHealthy :
      (s t : TcpServer b)
      → Steps b codec alloc new_address s t
      → IsHealthy b laws s
      → IsHealthy b laws t
  Steps-IsHealthy s t here h = h
  Steps-IsHealthy s t (next {t = u} steps st) h =
      Step-IsHealthy u t st (Steps-IsHealthy s u steps h)

  -- From the start of a server whose worker count is not 0 in 16 bits and whose socket calls
  -- succeed, in every order of callbacks (accepted connections, wake-ups, and client events with
  -- whatever they read), each of them run to its end before the next and with defined behaviour,
  -- where the memory of a live flow is not given to another: the pool runs in round robin order,
  -- every worker's events are those of its sessions, the dictionary is valid and within its limit
  -- and the counters are balanced.
  pub start-Steps-IsHealthy :
      (workers port : ℤ) (ip : Text) (enable : Bool) (calls : SocketCalls) (fd : ℕ)
      (s t : TcpServer b)
      → 0 < uint16_of workers
      → calls.socket ≡ some fd
      → AllSucceed calls
      → start b calls (new_server b workers ip port enable) ≡ some s
      → Steps b codec alloc new_address s t
      → IsHealthy b laws t
  unfolding init_workers
  start-Steps-IsHealthy workers port ip enable calls fd s t some_worker e ok starts steps =
      let (s', starts', serving, _, _) =
        start-IsServing b laws workers port ip enable calls fd some_worker e ok in
      let one : s' ≡ s = some-injective s' s (sym starts' ∙ starts) in
      let pool : serving.manager
          ≡ init_workers ServiceWorker.init (new_manager (uint16_of workers) round_robin) =
        some-injective _ _ (
          sym serving.dispatching
          ∙ start-dispatcher b workers port ip enable calls fd s' e ok starts') in
      let healthy : IsHealthy b laws s' = record {
        serving = serving;
        safe =
            subst AllSafe (sym (ap (λ (m : WorkerManager Worker). m.workers) pool))
              (start_workers-AllSafe (uint16_of workers) [] tt);
      } in
      Steps-IsHealthy s t steps (subst (IsHealthy b laws) one healthy)
