-- ===== src/Examples/Workers.antt =====
-- The theorems of the threads at a server with two workers, one client and one session.
use remote_dict.Prelude.{
  if◌then◌else◌, ℕ, zero, suc, ◌+◌, ◌*◌, ◌≤◌, ◌<◌, ◌≡◌, ◌≢◌, refl, true, false, none, some, List,
  [], ◌∷◌, ◌++◌, length, get_elem?, arith, ◌⊎◌, int_max,
}
use remote_dict.Text.{bytes}
use remote_dict.UnorderedMap.{find}
use remote_dict.Examples.{exact, exact-NoFalseNegatives, roomy, plain_codec}
use remote_dict.Examples.Flows.{world, world-IsSound}
use remote_dict.TcpFlow.Buffer.{Flow, new_flow, received}
use remote_dict.TcpFlow.Callback.{Done, data_event, ev_read}
use remote_dict.ServiceThread.{new_thread, wake_client, write_wake, push_fd}
use remote_dict.ServiceThread.Wakeups.{
  System, start, writes_byte, pushes, Reach, here, next, IsWoken, free, holding, no_lost_wakeup,
  handed_over_in_order, polling, draining, reads_client, locks,
}
use remote_dict.ServiceThread.Wakeups.Progress.{
  WorkerSteps, step, done, CanStep, IsDrained, queue_drains,
}
use remote_dict.ServiceWorker.{
  Worker, close_fd, process_event, delete_tcp_flow, clean_state, client_event,
}
use remote_dict.ServiceWorker
use remote_dict.ServiceWorker.Sessions.{IsSafe, clean_state_idle, client_event-IsSafe}
use remote_dict.WorkerManager.{WorkerManager, round_robin, least_loaded}
use remote_dict.WorkerManager.RoundRobin.{choices, times, round_robin_fair}
use remote_dict.WorkerManager.LeastLoaded.{least_loaded_shortest}
use remote_dict.WorkerManager.Dispatch.{IsRunning}
use remote_dict.Listener.{Fcntl, SocketCalls}
use remote_dict.TcpServer.{TcpServer}
use remote_dict.TcpServer.Serving.{IsServing}

-- The descriptor 7 is pushed, and the worker has not read the byte.
abbrev written : System
written = record start { thread = write_wake wake_client start.thread; listener = holding 7 }

abbrev pushed : System
pushed = record {
  thread = push_fd 7 written.thread;
  worker = polling;
  listener = free;
  accepted = 7 ∷ [];
}

pushed-Reach : Reach pushed
pushed-Reach = next (next here (writes_byte 7 refl (λ d. absurd (cc)) refl)) (pushes 7 refl refl)

pushed-waits : pushed.queue ≢ []
unfolding push_fd write_wake
pushed-waits h = absurd (cc)

no_lost_wakeup_example : IsWoken pushed
no_lost_wakeup_example = no_lost_wakeup pushed-Reach pushed-waits

handed_over_in_order_example : pushed.app.given ++ pushed.queue ≡ 7 ∷ []
handed_over_in_order_example = handed_over_in_order pushed-Reach

-- The worker has read the byte, and has the lock.
abbrev read_on : System
read_on = record pushed { thread = record pushed.thread { wakes = [] }; worker = draining }

two_steps : WorkerSteps read_on 2 pushed
unfolding push_fd write_wake
two_steps = step (reads_client [] refl refl refl) tt (step (locks refl refl refl) tt done)

queue_drains_example :
    (2 ≤ 3 * length pushed.wakes + length pushed.queue + 3)
    × (CanStep read_on ⊎ IsDrained pushed read_on)
unfolding push_fd write_wake
queue_drains_example = queue_drains pushed-Reach refl refl two_steps

abbrev pub served : Worker
served = record {
  tcp_sessions = (bytes "a", new_flow (bytes "a")) ∷ [];
  events = (7, bytes "a") ∷ [];
  closed = [];
}

pub served-IsSafe : IsSafe served
unfolding find
served-IsSafe = record { distinct = (refl, tt); paired = refl }

clean_state_idle_example : (clean_state served).closed ≡ []
clean_state_idle_example = clean_state_idle served served-IsSafe (refl, tt)

client_event-IsSafe_example :
    (f : Flow) × (find (bytes "a") served.tcp_sessions ≡ some f)
    × ((data_event exact plain_codec roomy 7 ev_read (received [] ∷ []) [] f world ≡ none)
        ⊎ ((d : Done exact) × (w : Worker) × (data_event exact plain_codec roomy 7 ev_read
                (received [] ∷ [])
                []
                f
                world
              ≡ some d)
            × (client_event exact plain_codec roomy
                  (7, bytes "a")
                  ev_read
                  (received [] ∷ [])
                  []
                  served
                  world
                ≡ some (w, d.world))
            × (w.closed ≡ (if d.gone then close_fd d.flow.client_fd [] else []))
            × IsSafe w))
client_event-IsSafe_example =
    client_event-IsSafe exact plain_codec roomy [] [] (7, bytes "a") ev_read (received [] ∷ []) []
      served world served-IsSafe refl

round_robin_fair_example :
    (js : List ℕ) × (choices 5 0 3 ≡ some js) × (length js ≡ 5) × (times 1 js ≤ times 0 js + 1)
round_robin_fair_example = round_robin_fair 5 3 1 0 (omega arith) (omega arith) (omega arith)

small_sizes : (k s : ℕ) → get_elem? (4 ∷ 2 ∷ 2 ∷ []) k ≡ some s → s < int_max
small_sizes zero s h = ground arith
small_sizes (suc zero) s h = ground arith
small_sizes (suc (suc zero)) s h = ground arith
small_sizes (suc (suc (suc k))) s h = absurd (cc)

least_loaded_shortest_example :
    (s : ℕ) × (get_elem? (4 ∷ 2 ∷ 2 ∷ []) (least_loaded (4 ∷ 2 ∷ 2 ∷ []) 0 int_max 0) ≡ some s)
    × (s ≤ 4)
    × ((least_loaded (4 ∷ 2 ∷ 2 ∷ []) 0 int_max 0 ≤ 0) ⊎ (s < 4))
least_loaded_shortest_example = least_loaded_shortest (4 ∷ 2 ∷ 2 ∷ []) 0 4 small_sizes refl

abbrev pub pool : WorkerManager Worker
pool = record {
  thread_count = 2;
  index = 1;
  dist_type = round_robin;
  workers = new_thread served ∷ new_thread ServiceWorker.init ∷ [];
}

pub pool-IsRunning : IsRunning pool
pool-IsRunning = record { started = refl; in_range = omega arith; counted = omega arith }

abbrev pub nonblocking : Fcntl
nonblocking = record { flags = some 2; sets = true }

abbrev pub socket_calls : SocketCalls
socket_calls = record {
  socket = some 3;
  setsockopt = true;
  bind = true;
  listen = true;
  fcntl = nonblocking;
}

abbrev pub server : TcpServer exact
server = record {
  num_worker = 2;
  ip_addr = [];
  port = 5052;
  bloom_filter_enable = false;
  tcp_listener = none;
  event_dispatcher = some pool;
  world = world;
}

abbrev pub server-IsServing : IsServing exact exact-NoFalseNegatives server
server-IsServing = record {
  manager = pool;
  dispatching = refl;
  running = pool-IsRunning;
  in_turn = refl;
  sound = world-IsSound;
}
