-- ===== src/TcpServer/Connection.antt =====
-- A connection on its way through the server: from the listener's accept event
-- (server/src/TcpServer.cpp) through the worker's queue and its event loop
-- (server/src/ServiceThread.cpp, server/src/ServiceWorker.cpp) to the callback of its first request
-- (server/src/TcpFlow.cpp).
use mathlib.Core.Option.{some-injective}
use mathlib.Core.Path.{ap₂}
use remote_dict.Prelude.{
  ℕ, ◌+◌, ◌<◌, ◌≡◌, refl, sym, ap, ◌∙◌, subst, Bool, true, false, none, some, List, [], ◌∷◌, ◌++◌,
  length, get_elem?, set_elem, u32_mod, get_elem?-set_elem,
}
use remote_dict.Text.{Text, text_eq_refl}
use remote_dict.UnorderedMap.{find, find-insert}
use remote_dict.BloomFilter.{BloomFilter, NoFalseNegatives}
use remote_dict.Payload.{Payload, RequestType, Codec, IsCodec}
use remote_dict.TcpFlow.Buffer.{Flow, Read, new_flow}
use remote_dict.TcpFlow.Write.{Write, socket_write_data}
use remote_dict.TcpFlow.Requests.{World, handle_request}
use remote_dict.TcpFlow.Callback.{Done, data_event, ev_read}
use remote_dict.TcpFlow.Messages.{Delivery, data_event-request}
use remote_dict.TcpFlow.Semantics.{IsSound, handle_request-IsSound}
use remote_dict.ServiceThread.{
  Thread, Handlers, add_fd_to_ev_loop, write_wake, push_fd, on_event, on_byte, drain_queue, drain,
}
use remote_dict.ServiceWorker.{Worker, process_event, clean_state, keep_flow, client_event}
use remote_dict.WorkerManager.RoundRobin.{following}
use remote_dict.Listener.{Fcntl}
use remote_dict.Listener.Accepting.{NonblockWorks}
use remote_dict.TcpServer.{TcpServer, accept_event}
use remote_dict.TcpServer.Serving.{IsServing, accept_event-IsServing}

-- The overrides of `ServiceWorker`, for a worker that is told to exit or not, with the address of
-- the next flow.
abbrev pub worker_handlers : Bool → Text → Handlers Worker
worker_handlers exiting addr = record {
  process_event = process_event exiting addr;
  clean_state = clean_state;
}

-- A worker with nothing in its queue or its socket pair.
pub record IsIdle (t : Thread Worker) : Type 0 where
  pub no_queue : t.queue ≡ []
  pub no_wakes : t.wakes ≡ []

-- The worker that has taken the descriptor from its queue.
unfoldable pub taken : Text → ℕ → Thread Worker → Thread Worker
taken addr fd t = record t { queue = []; wakes = []; app = process_event false addr fd t.app }

picks_up :
    (addr : Text) (fd : ℕ) (t : Thread Worker)
    → IsIdle t
    → on_event (worker_handlers false addr) (add_fd_to_ev_loop true fd t).0 ≡ taken addr fd t
unfolding on_event on_byte add_fd_to_ev_loop write_wake push_fd drain_queue drain taken
picks_up addr fd t idle = rw (idle.no_wakes, idle.no_queue) refl

taken-session :
    (addr : Text) (fd : ℕ) (t : Thread Worker)
    → find addr t.app.tcp_sessions ≡ none
    → find addr (taken addr fd t).app.tcp_sessions ≡ some (new_flow addr)
unfolding taken process_event
taken-session addr fd t new =
    find-insert addr addr (new_flow addr) t.app.tcp_sessions new ∙ rw (text_eq_refl addr) refl

-- The worker that was handed the descriptor, in its place.
placed :
    (fd i j : ℕ) (ws ws' : List (Thread Worker)) (t t₀ : Thread Worker)
    → i ≡ j
    → get_elem? ws i ≡ some t₀
    → get_elem? ws j ≡ some t
    → ws' ≡ set_elem ws i (add_fd_to_ev_loop true fd t₀).0
    → get_elem? ws' j ≡ some (add_fd_to_ev_loop true fd t).0
placed fd i j ws ws' t t₀ place found next put =
    let here : get_elem? ws j ≡ some t₀ = subst (λ k. get_elem? ws k ≡ some t₀) place found in
    let one : t₀ ≡ t = some-injective t₀ t (sym here ∙ next) in
    ap (λ (l : List (Thread Worker)). get_elem? l j) put
    ∙ ap (λ k. get_elem? (set_elem ws k (add_fd_to_ev_loop true fd t₀).0) j) place
    ∙ get_elem?-set_elem ws j t₀ (add_fd_to_ev_loop true fd t₀).0 here
    ∙ ap (λ (u : Thread Worker). some (add_fd_to_ev_loop true fd u).0) one

module _ (b : BloomFilter) (laws : NoFalseNegatives b) (codec : Codec) (alloc : ℕ → Bool) where
  client_event-runs :
      (fd : ℕ) (addr : Text) (f : Flow) (reads : List Read) (writes : List Write) (app : Worker)
      (w : World b) (d : Done b)
      → find addr app.tcp_sessions ≡ some f
      → data_event b codec alloc fd ev_read reads writes f w ≡ some d
      → client_event b codec alloc (fd, addr) ev_read reads writes app w
        ≡ some (keep_flow b codec alloc addr d app, d.world)
  unfolding client_event
  client_event-runs fd addr f reads writes app w d found runs = rw found (rw runs refl)

  answered :
      (type : RequestType) (p q q' : Payload) (w w₀ w' w'' : World b)
      → w ≡ w₀
      → handle_request b type p w ≡ some (q, w')
      → q' ≡ q
      → w'' ≡ w'
      → handle_request b type p w₀ ≡ some (q', w'')
  answered type p q q' w w₀ w' w'' same handled answer state =
      ap (handle_request b type p) (sym same)
      ∙ handled
      ∙ ap₂ (λ a c. some (a, c)) (sym answer) (sym state)

  -- While the server serves, a connection is accepted, made non-blocking and handed with a byte to
  -- the worker that is next in turn, which is idle and not told to exit. Then the worker's loop
  -- takes the descriptor out of the queue into a new session at an address that was free, and a
  -- message with a request type, shorter than 2 ^ 32 - 4 bytes and split into reads in any way
  -- that a delivery allows, is handled in it, where all is allocated: dictionary and counters are
  -- the handler's and sound, and what is written is the handler's answer, serialized, and one zero
  -- byte.
  pub connection_answered :
      (fd : ℕ) (addr : Text) (calls : Fcntl) (s : TcpServer b) (t : Thread Worker)
      (reads : List Read) (writes : List Write) (p : Payload) (type : RequestType)
      → NonblockWorks calls
      → (serving : IsServing b laws s)
      → get_elem? serving.manager.workers
          (following serving.manager.index serving.manager.thread_count)
        ≡ some t
      → IsIdle t
      → find addr t.app.tcp_sessions ≡ none
      → IsCodec codec
      → ((n : ℕ) → alloc n ≡ true)
      → p.requesttype ≡ some type
      → Delivery (codec.serialize p) reads
      → length (codec.serialize p) + 4 < u32_mod
      → (s' : TcpServer b) × (t' : Thread Worker) × (done : Done b) × (accept_event b ev_read
            (some fd)
            calls
            true
            s
          ≡ some s')
        × ((later : IsServing b laws s') × (get_elem? later.manager.workers
                (following serving.manager.index serving.manager.thread_count)
              ≡ some t'))
        × (on_event (worker_handlers false addr) t' ≡ taken addr fd t)
        × (client_event b codec alloc (fd, addr) ev_read reads writes (taken addr fd t).app s'.world
            ≡ some (keep_flow b codec alloc addr done (taken addr fd t).app, done.world))
        × (done.gone ≡ false)
        × (handle_request b type p s.world ≡ some (done.flow.payload, done.world))
        × IsSound b laws done.world
        × (done.response
            ≡ some (socket_write_data writes (codec.serialize done.flow.payload ++ (0 ∷ []))))
  connection_answered fd addr calls s t reads writes p type ok serving next idle new is_codec room
        typed delivery small =
      let (s', t₀, i, runs, place, found, later, put, same) =
        accept_event-IsServing b laws fd calls true s ok serving in
      let (q, w', handled, sound) = handle_request-IsSound b laws type p s'.world later.sound in
      let (done, answers, stays, state, answer, sent, _) =
        data_event-request b codec alloc fd reads writes (new_flow addr) p q s'.world w' type
          is_codec (record { null = refl; nothing = refl }) delivery small (room _) typed handled
          (room _) in
      (
        s',
        (add_fd_to_ev_loop true fd t).0,
        done,
        runs,
        (
          later,
          placed fd i _ serving.manager.workers later.manager.workers t t₀ place found next put,
        ),
        picks_up addr fd t idle,
        client_event-runs fd addr (new_flow addr) reads writes (taken addr fd t).app s'.world done
            (taken-session addr fd t new) answers,
        stays,
        answered type p q done.flow.payload s'.world s.world w' done.world same handled answer
            state,
        subst (IsSound b laws) (sym state) sound,
        rw answer sent,
      )
