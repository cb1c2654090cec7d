-- ===== src/Examples/Lifecycle.antt =====
-- The theorems of a connection and of the server's end, at one server with two workers.
use remote_dict.Prelude.{
  none, ℕ, suc, pos, replicate, length-replicate, ap, ◌∙◌, ◌+◌, ◌<◌, Bool-cases, inl, inr, ◌≡◌, ◌≤◌,
  refl, false, true, some, [], ◌∷◌, ◌++◌, length, get_elem?, arith, ◌⊎◌,
}
use remote_dict.Text.{Text, bytes, text_eq, text_eq→eq}
use remote_dict.UnorderedMap.{UnorderedMap, find}
use remote_dict.TcpFlow.Buffer.{Flow}
use remote_dict.Examples.{
  exact, exact-NoFalseNegatives, roomy, plain_codec, plain-IsCodec, serialize_payload,
  write_payload, write_text, write_stats,
}
use remote_dict.Examples.Flows.{world, get_key, reads, get_key-Delivery}
use remote_dict.Examples.Workers.{
  served, served-IsSafe, pool, server, server-IsServing, nonblocking, socket_calls,
}
use remote_dict.Payload.{RequestType}
use remote_dict.TcpFlow.Write.{accepts, socket_write_data}
use remote_dict.TcpFlow.Requests.{handle_request}
use remote_dict.TcpFlow.Callback.{Done, ev_read}
use remote_dict.TcpFlow.Semantics.{IsSound}
use remote_dict.ServiceThread.{Thread, new_thread, on_event}
use remote_dict.ServiceThread.Stopping.{RunPoint, StopPoint, Shared, apart, run_step, stop_step}
use remote_dict.ServiceThread.Stopping.Handshake.{start, stops, runs}
use remote_dict.ServiceThread.Stopping.Handshake.Termination.{
  Schedule, done, then, IsOver, CanStep, stop_terminates,
}
use remote_dict.ServiceWorker.{Worker, keep_flow, client_event}
use remote_dict.WorkerManager.{WorkerManager}
use remote_dict.WorkerManager.RoundRobin.{following}
use remote_dict.TcpServer.{TcpServer, accept_event, shutdown}
use remote_dict.TcpServer.Serving.{IsServing}
use remote_dict.TcpServer.Connection.{worker_handlers, taken, connection_answered}
use remote_dict.TcpServer
use remote_dict.TcpServer.{new_server}
use remote_dict.TcpServer.Serving.{start-IsServing, accept_event-IsServing}
use remote_dict.TcpServer.Callbacks.{IsAllocator, accepts, here, next}
use remote_dict.TcpServer.Callbacks.Health.{IsHealthy}
use remote_dict.TcpServer.Callbacks.Reachable.{start-Steps-IsHealthy}
use remote_dict.TcpServer.Shutdown.{AllEnd, shutdown_lem}

abbrev told : Shared
told = record apart { stop = StopPoint.acquiring; sent = true }

abbrev exiting : Shared
exiting = record told { run = RunPoint.storing }

two_steps : Schedule 2 apart exiting
unfolding stop_step run_step
two_steps = then (stops true refl) (then (runs refl) done)

stop_terminates_example : (2 ≤ 26) × (IsOver exiting ⊎ CanStep exiting)
stop_terminates_example = stop_terminates 2 apart exiting start two_steps

connection_answered_example :
    (s : TcpServer exact) × (t : Thread Worker) × (done : Done exact) × (accept_event exact ev_read
        (some 9)
        nonblocking
        true
        server
      ≡ some s)
    × ((later : IsServing exact exact-NoFalseNegatives s) × (get_elem? later.manager.workers
            (following 1 2)
          ≡ some t))
    × (on_event (worker_handlers false (bytes "b")) t ≡ taken (bytes "b") 9 (new_thread served))
    × (client_event exact plain_codec roomy
          (9, bytes "b")
          ev_read
          reads
          (accepts 100 ∷ [])
          (taken (bytes "b") 9 (new_thread served)).app
          s.world
        ≡ some (
          keep_flow exact plain_codec roomy
              (bytes "b")
              done
              (taken (bytes "b") 9 (new_thread served)).app,
          done.world,
        ))
    × (done.gone ≡ false)
    × (handle_request exact RequestType.get get_key world ≡ some (done.flow.payload, done.world))
    × IsSound exact exact-NoFalseNegatives done.world
    × (done.response
        ≡ some (
            socket_write_data
              (accepts 100 ∷ [])
              (plain_codec.serialize done.flow.payload ++ (0 ∷ []))))
unfolding find text_eq following serialize_payload write_payload write_text write_stats
connection_answered_example =
    connection_answered exact exact-NoFalseNegatives plain_codec roomy 9 (bytes "b") nonblocking
      server (new_thread served) reads (accepts 100 ∷ []) get_key RequestType.get ((2, refl), refl)
      server-IsServing refl (record { no_queue = refl; no_wakes = refl }) refl plain-IsCodec
      (λ n. refl) refl get_key-Delivery (omega arith)

shutdown_lem_example :
    (m : WorkerManager Worker) × ((shutdown exact true server).0.event_dispatcher ≡ some m)
    × (m.workers ≡ [])
    × (length (shutdown exact true server).1 ≡ 2)
    × AllEnd (bytes "b") (shutdown exact true server).1
shutdown_lem_example = shutdown_lem exact (bytes "b") server pool refl (
  record { no_queue = refl; no_wakes = refl },
  served-IsSafe,
  (record { no_queue = refl; no_wakes = refl }, record { distinct = tt; paired = refl }, tt),
)

-- An address that is longer than all that are in use.
total : UnorderedMap Flow → ℕ
total [] = 0
total ((k, f) ∷ m) = length k + total m

abbrev longer : Worker → Text
longer w = replicate (suc (total w.tcp_sessions)) 0

find-longer : (m : UnorderedMap Flow) (n : ℕ) → total m ≤ n → find (replicate (suc n) 0) m ≡ none
unfolding find total
find-longer [] n h = refl
find-longer ((k, f) ∷ m) n h = elim (Bool-cases (text_eq k (replicate (suc n) 0))) [
  | inl e ↦
      let same : length k ≡ suc n =
        ap length (text_eq→eq k (replicate (suc n) 0) e) ∙ length-replicate (suc n) 0 in
      absurd (omega arith)
  | inr e ↦ rw e (find-longer m n (omega arith))
]

longer-IsAllocator : IsAllocator longer
longer-IsAllocator = record {
  unused = λ w. find-longer w.tcp_sessions (total w.tcp_sessions) (omega arith);
}

abbrev accepted : (s : TcpServer exact) → IsServing exact exact-NoFalseNegatives s → TcpServer exact
accepted s serving =
    (accept_event-IsServing exact exact-NoFalseNegatives 9 nonblocking true s ((2, refl), refl)
      serving).0

some_worker : 0 < TcpServer.uint16_of (pos 2)
unfolding TcpServer.uint16_of
some_worker = omega arith

abbrev begun :
    (s : TcpServer exact) × (TcpServer.start exact socket_calls
        (new_server exact (pos 2) [] (pos 5052) true)
      ≡ some s)
    × IsServing exact exact-NoFalseNegatives s
    × (s.world.dictionary.bloom_filter_enabled ≡ true)
    × (s.world.dictionary.dict ≡ [])
begun =
    start-IsServing exact exact-NoFalseNegatives (pos 2) (pos 5052) [] true socket_calls 3
      some_worker refl (refl, refl, refl, ((2, refl), refl))

start-Steps-IsHealthy_example : IsHealthy exact exact-NoFalseNegatives (accepted begun.0 begun.2)
start-Steps-IsHealthy_example =
    start-Steps-IsHealthy exact exact-NoFalseNegatives plain_codec roomy longer longer-IsAllocator
      (pos 2) (pos 5052) [] true socket_calls 3 begun.0 (accepted begun.0 begun.2) some_worker refl
      (refl, refl, refl, ((2, refl), refl)) begun.1
      (next here (
        accepts ev_read (some 9) nonblocking true
          (accept_event-IsServing exact exact-NoFalseNegatives 9 nonblocking true begun.0
            ((2, refl), refl) begun.2).3))
