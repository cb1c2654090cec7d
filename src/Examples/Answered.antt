-- ===== src/Examples/Answered.antt =====
-- A server with two workers that takes a connection and answers a GET of a key that it lacks.
use remote_dict.Prelude.{
  ◌≡◌, refl, true, false, some, List, [], ◌∷◌, ◌++◌, ◌+◌, ◌<◌, arith, length, pos, u32_mod, ◌⊎◌,
}
use remote_dict.Text.{Text, bytes, text_eq}
use remote_dict.UnorderedMap.{find, insert}
use remote_dict.Dictionary
use remote_dict.Stats
use remote_dict.Payload.{RequestType}
use remote_dict.TcpFlow.Buffer.{new_flow}
use remote_dict.TcpFlow.Write.{accepts, socket_write_data}
use remote_dict.TcpFlow.Requests.{World, handle_request}
use remote_dict.TcpFlow.Callback.{Done, data_event, ev_read}
use remote_dict.TcpFlow.Messages.{data_event-request}
use remote_dict.TcpFlow.Ideal.{
  Ideal, nothing, reply, Represents, new-Represents, handle_request-reply,
}
use remote_dict.TcpFlow.Refines.{Idle, Handled, data_event-refines}
use remote_dict.ServiceThread.{Thread, new_thread, wake_client, on_event, add_fd_to_ev_loop}
use remote_dict.ServiceWorker.{Worker, keep_flow, process_event}
use remote_dict.ServiceWorker
use remote_dict.WorkerManager.{
  round_robin, dispatch_fd, init_workers, next_index, loadbalance_fd, get_worker_index, hand_over,
}
use remote_dict.Listener.{init_app, on_accept}
use remote_dict.TcpServer.{
  TcpServer, start, new_server, accept_event, server_callback, start_threads, enable_filter,
  init_worker_manager, uint16_of,
}
use remote_dict.TcpServer.Callbacks.{set_worker, allocating}
use remote_dict.TcpServer.Callbacks.Replies.{
  Log, begins, accepted, woken, called, Entry, Explained, start-Log-Explained,
}
use remote_dict.Examples.{
  exact, exact-NoFalseNegatives, roomy, plain_codec, plain-IsCodec, serialize_payload,
  write_payload, write_text, write_stats,
}
use remote_dict.Examples.Workers.{socket_calls, nonblocking}
use remote_dict.Examples.Flows.{get_key, reads, get_key-Delivery}

abbrev empty_world : World exact
empty_world = record { dictionary = Dictionary.init exact; stats = Stats.init }

abbrev workers : Thread Worker → TcpServer exact → TcpServer exact
workers t s = record s {
  event_dispatcher = some (record {
    thread_count = 2;
    index = 1;
    dist_type = round_robin;
    workers = new_thread ServiceWorker.init ∷ t ∷ [];
  });
}

abbrev started : TcpServer exact
started = record {
  num_worker = 2;
  ip_addr = [];
  port = 5052;
  bloom_filter_enable = false;
  tcp_listener =
      some (new_thread (record { file_descriptor = some 3; has_event = true; closed = [] }));
  event_dispatcher = some (record {
    thread_count = 2;
    index = 0;
    dist_type = round_robin;
    workers = new_thread ServiceWorker.init ∷ new_thread ServiceWorker.init ∷ [];
  });
  world = empty_world;
}

started-starts :
    start exact socket_calls (new_server exact (pos 2) [] (pos 5052) false) ≡ some started
unfolding start new_server start_threads init_worker_manager enable_filter init_workers init_app
    Dictionary.enable_bloom_filter uint16_of
started-starts = refl

abbrev waiting : Thread Worker
waiting = record (new_thread ServiceWorker.init) { queue = 9 ∷ []; wakes = wake_client ∷ [] }

abbrev handed : TcpServer exact
handed = workers waiting started

handed-accepted : accept_event exact ev_read (some 9) nonblocking true started ≡ some handed
unfolding accept_event server_callback dispatch_fd on_accept add_fd_to_ev_loop next_index
    loadbalance_fd get_worker_index hand_over
handed-accepted = refl

abbrev taken_up : Worker
taken_up = record {
  tcp_sessions = (bytes "f", new_flow (bytes "f")) ∷ [];
  events = (9, bytes "f") ∷ [];
  closed = [];
}

abbrev address : Worker → Text
address w = bytes "f"

abbrev opened : TcpServer exact
opened = workers (new_thread taken_up) started

opened-woken : opened ≡ set_worker exact 1 (on_event (allocating address false) waiting) handed
unfolding set_worker on_event process_event insert
opened-woken = refl

abbrev handled :
    (w : World exact) × (handle_request exact RequestType.get get_key empty_world
      ≡ some ((reply RequestType.get get_key nothing).0, w))
    × Represents exact w (reply RequestType.get get_key nothing).1
handled =
    handle_request-reply exact exact-NoFalseNegatives RequestType.get get_key empty_world nothing
      (new-Represents exact)

get_key-small : length (plain_codec.serialize get_key) + 4 < u32_mod
unfolding serialize_payload write_payload write_text write_stats
get_key-small = omega arith

-- The callback of the connection, whose reads are the request.
abbrev answered :
    (done : Done exact) × (data_event exact plain_codec roomy 9 ev_read reads
        (accepts 100 ∷ [])
        (new_flow (bytes "f"))
        empty_world
      ≡ some done)
    × (done.gone ≡ false)
    × (done.world ≡ handled.0)
    × (done.flow.payload ≡ (reply RequestType.get get_key nothing).0)
    × (done.response
        ≡ some (
            socket_write_data
              (accepts 100 ∷ [])
              (plain_codec.serialize (reply RequestType.get get_key nothing).0 ++ (0 ∷ []))))
    × (done.unread ≡ [])
answered =
    data_event-request exact plain_codec roomy 9 reads (accepts 100 ∷ []) (new_flow (bytes "f"))
      get_key (reply RequestType.get get_key nothing).0 empty_world handled.0 RequestType.get
      plain-IsCodec (record { null = refl; nothing = refl }) get_key-Delivery (get_key-small) refl
      refl handled.1 refl

abbrev done : Done exact
done = answered.0

abbrev served : TcpServer exact
served =
    record (workers (new_thread (keep_flow exact plain_codec roomy (bytes "f") done taken_up))
      started) { world = done.world }

called-back :
    served
    ≡ record (set_worker exact 1
        (record (new_thread taken_up) {
          app = keep_flow exact plain_codec roomy (bytes "f") done taken_up;
        })
        opened) { world = done.world }
unfolding set_worker
called-back = refl

found : find (bytes "f") taken_up.tcp_sessions ≡ some (new_flow (bytes "f"))
unfolding find text_eq
found = refl

abbrev log : List Entry
log = (accepts 100 ∷ [], done.response) ∷ []

served-Log : Log exact plain_codec roomy address started served log
served-Log =
    called 1 (new_thread taken_up) [] [] (9, bytes "f") ev_read reads (accepts 100 ∷ [])
      (new_flow (bytes "f")) done
      (woken 1 waiting (accepted ev_read (some 9) nonblocking true begins handed-accepted) refl
        opened-woken)
      refl refl found answered.1 called-back

start-Log-Explained_example :
    (a : Ideal) × Explained plain_codec nothing log a × Represents exact served.world a
start-Log-Explained_example =
    start-Log-Explained exact exact-NoFalseNegatives plain_codec roomy address (pos 2) (pos 5052) []
      socket_calls 3 started served log refl (refl, refl, refl, ((2, refl), refl)) started-starts
      served-Log

data_event-refines_example :
    Idle exact plain_codec empty_world done
    ⊎ Handled exact plain_codec nothing (accepts 100 ∷ []) done
data_event-refines_example =
    data_event-refines exact exact-NoFalseNegatives plain_codec roomy 9 ev_read reads
      (accepts 100 ∷ []) (new_flow (bytes "f")) empty_world nothing done (new-Represents exact)
      answered.1
