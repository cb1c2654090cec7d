-- ===== src/ServiceWorker.antt =====
-- server/include/ServiceWorker.h and server/src/ServiceWorker.cpp: a worker thread's table of
-- flows, with the events of its loop that belong to flows. The address of a new flow, which is
-- its key, comes from `new` and is a parameter of the operation.
pub mod Sessions
use remote_dict.Prelude.{
  ℕ, Bool, true, false, Option, none, some, List, [], ◌∷◌, ◌++◌, if◌then◌else◌, ◌>>=◌, ◌==◌,
}
use remote_dict.Text.{Text, text_eq}
use remote_dict.UnorderedMap
use remote_dict.UnorderedMap.{UnorderedMap}
use remote_dict.BloomFilter.{BloomFilter}
use remote_dict.Payload.{Codec}
use remote_dict.TcpFlow.Buffer.{Flow, Read, new_flow}
use remote_dict.TcpFlow.Write.{Write}
use remote_dict.TcpFlow.Requests.{World}
use remote_dict.TcpFlow.Callback.{Done, data_event}

-- `events` are the registered client events: the descriptor and the cookie, which is the address
-- of a flow. `closed` are the descriptors that were closed, latest first.
pub record Worker : Type 0 where
  pub tcp_sessions : UnorderedMap Flow
  pub events : List (ℕ × Text)
  pub closed : List ℕ

abbrev pub init : Worker
init = record { tcp_sessions = []; events = []; closed = [] }

-- `processEvent`, with `m_processExiting` and the address of the flow that it creates.
unfoldable pub process_event : Bool → Text → ℕ → Worker → Worker
process_event exiting addr fd w = if exiting then w else record w {
  tcp_sessions = UnorderedMap.insert addr (new_flow addr) w.tcp_sessions;
  events = w.events ++ ((fd, addr) ∷ []);
}

-- `event_del` of the event that lies in the flow at the address.
unfoldable pub remove_from_ev : Text → List (ℕ × Text) → List (ℕ × Text)
remove_from_ev addr [] = []
remove_from_ev addr ((fd, cookie) ∷ es) =
    if text_eq cookie addr then es else (fd, cookie) ∷ remove_from_ev addr es

-- `close(m_clientFd)`, which does nothing for -1.
unfoldable pub close_fd : Option ℕ → List ℕ → List ℕ
close_fd none closed = closed
close_fd (some fd) closed = fd ∷ closed

-- The destructor of the flow at the address. It calls `removeFromEv` through the null `m_libEvent`,
-- which is taken for the `event_del` in it, as that method reads no member.
unfoldable pub destroy : Text → Flow → Worker → Worker
unfolding remove_from_ev close_fd
destroy addr f w = record w {
  events = remove_from_ev addr w.events;
  closed = close_fd f.client_fd w.closed;
}

-- `deleteTcpFlow`: the table holds the only reference, so the erasure destroys the flow.
unfoldable pub delete_tcp_flow : Text → Worker → Worker
unfolding destroy
delete_tcp_flow addr w = elim (UnorderedMap.find addr w.tcp_sessions) [
  | none ↦ w
  | some f ↦ destroy addr f (record w { tcp_sessions = UnorderedMap.erase addr w.tcp_sessions })
]

unfoldable pub destroy_all : UnorderedMap Flow → Worker → Worker
unfolding destroy
destroy_all [] w = w
destroy_all ((addr, f) ∷ m) w = destroy_all m (destroy addr f w)

-- `cleanState`.
unfoldable pub clean_state : Worker → Worker
unfolding destroy_all
clean_state w = destroy_all w.tcp_sessions (record w { tcp_sessions = [] })

module _ (b : BloomFilter) (codec : Codec) (alloc : ℕ → Bool) where
  -- The flow as a call of `data` leaves it: destroyed by the delete callback, or in the table.
  unfoldable pub keep_flow : Text → Done b → Worker → Worker
  unfolding delete_tcp_flow
  keep_flow addr d w =
      let w' = record w { tcp_sessions = UnorderedMap.assign addr d.flow w.tcp_sessions } in
      if d.gone then delete_tcp_flow addr w' else w'

  -- The event loop calls `data` for a registered event; a cookie that is no flow is a dangling
  -- pointer.
  unfoldable pub client_event :
      ℕ × Text → ℕ → List Read → List Write → Worker → World b → Option (Worker × World b)
  unfolding keep_flow
  client_event (fd, cookie) ev reads writes w world = do
    f ← UnorderedMap.find cookie w.tcp_sessions
    d ← data_event b codec alloc fd ev reads writes f world
    some (keep_flow cookie d w, d.world)
