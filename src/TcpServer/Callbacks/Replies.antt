-- ===== src/TcpServer/Callbacks/Replies.antt =====
-- What the clients of the whole server see: the responses that its callbacks write, in the order
-- in which they are written (server/src/TcpServer.cpp, server/src/TcpFlow.cpp).
use mathlib.Core.Option.{some-injective}
use remote_dict.Prelude.{
  ℕ, ◌≡◌, refl, ap, ◌∙◌, sym, subst, Bool, false, Option, none, some, List, [], ◌∷◌, ◌++◌, inl, inr,
  arith, ℤ,
}
use remote_dict.Text.{Text}
use remote_dict.UnorderedMap.{find}
use remote_dict.BloomFilter.{BloomFilter, NoFalseNegatives}
use remote_dict.Dictionary
use remote_dict.Stats
use remote_dict.Payload.{Payload, RequestType, Codec}
use remote_dict.TcpFlow.Buffer.{Flow, Read}
use remote_dict.TcpFlow.Write.{Write, Written, socket_write_data}
use remote_dict.TcpFlow.Requests.{World}
use remote_dict.TcpFlow.Callback.{Done, data_event}
use remote_dict.TcpFlow.Ideal.{Ideal, reply, Represents, nothing, new-Represents}
use remote_dict.TcpFlow.Refines.{data_event-refines}
use remote_dict.ServiceThread.{Thread, new_thread, on_event}
use remote_dict.ServiceWorker.{Worker, keep_flow, client_event}
use remote_dict.Listener.{
  Accept, Fcntl, SocketCalls, on_accept, new_listener, ignored, failed, dropped, passed,
}
use remote_dict.Listener.Accepting.{AllSucceed, init_app-returned}
use remote_dict.TcpServer.{
  TcpServer, accept_event, server_callback, new_server, start, start_threads, enable_filter,
  init_worker_manager,
}
use remote_dict.TcpServer.Callbacks.{
  allocating, worker_at, set_worker, accepts, wakes, serves, Steps, here, next,
}

-- A call of a flow's callback: what the socket takes, and what was written if anything was.
abbrev pub Entry : Type 0
Entry = List Write × Option Written

module _ (b : BloomFilter) (codec : Codec) (alloc : ℕ → Bool) (new_address : Worker → Text) where
  -- The callbacks of `Step`, with the calls of flows' callbacks, the last one first.
  pub data Log (s : TcpServer b) : TcpServer b → List Entry → Type 0 where
    begins : Log s s []
    accepted :
        {t u : TcpServer b} {log : List Entry} (ev : ℕ) (fd : Option ℕ) (calls : Fcntl)
        (sent : Bool)
        → Log s t log
        → accept_event b ev fd calls sent t ≡ some u
        → Log s u log
    woken :
        {t u : TcpServer b} {log : List Entry} (i : ℕ) (w : Thread Worker)
        → Log s t log
        → worker_at b t i ≡ some w
        → u ≡ set_worker b i (on_event (allocating new_address w.process_exiting) w) t
        → Log s u log
    called :
        {t u : TcpServer b} {log : List Entry} (i : ℕ) (w : Thread Worker)
        (before after : List (ℕ × Text)) (e : ℕ × Text) (ev : ℕ) (reads : List Read)
        (writes : List Write) (f : Flow) (d : Done b)
        → Log s t log
        → worker_at b t i ≡ some w
        → w.app.events ≡ before ++ (e ∷ after)
        → find e.1 w.app.tcp_sessions ≡ some f
        → data_event b codec alloc e.0 ev reads writes f t.world ≡ some d
        → u ≡ record (set_worker b i (record w { app = keep_flow b codec alloc e.1 d w.app }) t) {
          world = d.world;
        }
        → Log s u ((writes, d.response) ∷ log)

  client_event-runs :
      (e : ℕ × Text) (ev : ℕ) (reads : List Read) (writes : List Write) (app : Worker) (f : Flow)
      (d : Done b) (world : World b)
      → find e.1 app.tcp_sessions ≡ some f
      → data_event b codec alloc e.0 ev reads writes f world ≡ some d
      → client_event b codec alloc e ev reads writes app world
        ≡ some (keep_flow b codec alloc e.1 d app, d.world)
  unfolding client_event
  client_event-runs e ev reads writes app f d world found runs = rw (found, runs) refl

  -- The callbacks of a log are steps of the server.
  Log-Steps :
      (s t : TcpServer b) (log : List Entry) → Log s t log → Steps b codec alloc new_address s t
  Log-Steps s t log begins = here
  Log-Steps s u log (accepted {t} ev fd calls sent l e) =
      next (Log-Steps s t log l) (accepts ev fd calls sent e)
  Log-Steps s u log (woken {t} i w l at e) = next (Log-Steps s t log l) (wakes i w at e)
  Log-Steps s u log
        (called {t} {log = older} i w before after e ev reads writes f d l at registered found runs
          same) =
      next (Log-Steps s t older l) (
        serves i w before after e ev reads writes (keep_flow b codec alloc e.1 d w.app) d.world at
          registered (client_event-runs e ev reads writes w.app f d t.world found runs) same)

  accept_event-world :
      (r : Accept) (ev : ℕ) (fd : Option ℕ) (calls : Fcntl) (sent : Bool) (s t : TcpServer b)
      → on_accept ev fd calls ≡ r
      → accept_event b ev fd calls sent s ≡ some t
      → t.world ≡ s.world
  unfolding accept_event server_callback
  accept_event-world ignored ev fd calls sent s t e step = ground arith
  accept_event-world failed ev fd calls sent s t e step = ground arith
  accept_event-world (dropped n) ev fd calls sent s t e step = ground arith
  accept_event-world (passed n) ev fd calls sent s t e step = ground arith

  set_worker-world :
      (i : ℕ) (w : Thread Worker) (s : TcpServer b) → (set_worker b i w s).world ≡ s.world
  unfolding set_worker
  set_worker-world i w s = ground arith

module _ (codec : Codec) where
  -- The responses of a log, the last one first, are those of an ideal server to requests that it
  -- takes one after the other; a call that has written nothing has changed nothing.
  abbrev pub Explained : Ideal → List Entry → Ideal → Type 0
  Explained s [] s' = s' ≡ s
  Explained s ((writes, none) ∷ log) s' = Explained s log s'
  Explained s ((writes, some out) ∷ log) s' =
      (mid : Ideal) × (type : RequestType) × (p : Payload) × Explained s log mid
      × (p.requesttype ≡ some type)
      × (s' ≡ (reply type p mid).1)
      × (out ≡ socket_write_data writes (codec.serialize (reply type p mid).0 ++ (0 ∷ [])))

  Explained-silent :
      (s s' : Ideal) (log : List Entry) (writes : List Write) (o : Option Written)
      → o ≡ none
      → Explained s log s'
      → Explained s ((writes, o) ∷ log) s'
  Explained-silent s s' log writes none e h = h
  Explained-silent s s' log writes (some out) e h = cc

-- The state of a server that has just started without the filter.
start-world :
    (b : BloomFilter) (workers port : ℤ) (ip : Text) (calls : SocketCalls) (fd : ℕ)
    (s : TcpServer b)
    → calls.socket ≡ some fd
    → AllSucceed calls
    → start b calls (new_server b workers ip port false) ≡ some s
    → s.world ≡ record { dictionary = Dictionary.init b; stats = Stats.init }
unfolding start start_threads enable_filter init_worker_manager new_server
    Dictionary.enable_bloom_filter
start-world b workers port ip calls fd s e ok starts =
    let (l, returns) = init_app-returned calls new_listener fd e ok in
    let server : TcpServer b = new_server b workers ip port false in
    let runs : start b calls server
        ≡ some (
            enable_filter b
              (record (init_worker_manager b server) { tcp_listener = some (new_thread l) })) =
      rw (returns, start, start_threads) refl in
    ap (λ (u : TcpServer b). u.world) (some-injective _ _ (sym starts ∙ runs))

module _ (b : BloomFilter) (laws : NoFalseNegatives b) (codec : Codec) (alloc : ℕ → Bool)
    (new_address : Worker → Text) where
  Log-Explained :
      (s t : TcpServer b) (log : List Entry) (a : Ideal)
      → Represents b s.world a
      → Log b codec alloc new_address s t log
      → (a' : Ideal) × Explained codec a log a' × Represents b t.world a'
  Log-Explained s t log a r begins = (a, refl, r)
  Log-Explained s u log a r (accepted {t} ev fd calls sent l e) =
      let (a', h, r') = Log-Explained s t log a r l in
      let same : u.world ≡ t.world =
        accept_event-world b codec alloc new_address (on_accept ev fd calls) ev fd calls sent t u
          refl e in
      (a', h, subst (λ w. Represents b w a') (sym same) r')
  Log-Explained s u log a r (woken {t} i w l at e) =
      let (a', h, r') = Log-Explained s t log a r l in
      let same : u.world ≡ t.world =
        ap (λ (v : TcpServer b). v.world) e ∙ set_worker-world b codec alloc new_address i _ t in
      (a', h, subst (λ w. Represents b w a') (sym same) r')
  Log-Explained s u log a r
        (called {t} {log = older} i w before after e ev reads writes f d l at registered found runs
          same) =
      let (a', h, r') = Log-Explained s t older a r l in
      let world : u.world ≡ d.world = ap (λ (v : TcpServer b). v.world) same in
      elim (data_event-refines b laws codec alloc e.0 ev reads writes f t.world a' d r' runs) [
        | inl idle ↦ (
          a',
          Explained-silent codec a a' older writes d.response idle.silent h,
          subst (λ v. Represents b v a') (sym (world ∙ idle.unchanged)) r',
        )
        | inr done ↦
            let p : Payload = (codec.parse done.text).1 in
            (
              (reply done.type p a').1,
              rw done.written (a', done.type, p, h, done.typed, refl, refl),
              subst (λ v. Represents b v (reply done.type p a').1) (sym world) done.state,
            )
      ]

  -- From the start of a server without the filter whose socket calls succeed, in every order of
  -- callbacks (accepted connections, wake-ups, and client events with whatever they read), each of
  -- them run to its end before the next and with defined behaviour: the responses that were given
  -- to the sockets are, in their order, the answers of an ideal server to requests that it takes
  -- one after the other, serialized, each with one zero byte, and the server's state is the ideal
  -- server's after them.
  pub start-Log-Explained :
      (workers port : ℤ) (ip : Text) (calls : SocketCalls) (fd : ℕ) (s t : TcpServer b)
      (log : List Entry)
      → calls.socket ≡ some fd
      → AllSucceed calls
      → start b calls (new_server b workers ip port false) ≡ some s
      → Log b codec alloc new_address s t log
      → (a : Ideal) × Explained codec nothing log a × Represents b t.world a
  start-Log-Explained workers port ip calls fd s t log e ok starts steps =
      Log-Explained s t log nothing
        (subst (λ w. Represents b w nothing)
          (sym (start-world b workers port ip calls fd s e ok starts)) (new-Represents b))
        steps
