-- ===== src/ServiceThread/Setup/Ready.antt =====
-- When the context of a service thread is ready to be woken (`run` of
-- server/src/ServiceThread.cpp), for a worker, which overrides `initApp` by nothing, and for the
-- listener (server/src/Listener.cpp).
use remote_dict.Prelude.{ℕ, ◌≡◌, refl, Bool, true, false, ◌&&◌, Option, none, some, if◌then◌else◌}
use remote_dict.EventImpl.{
  LibEvent, IsLibEvent, EventImpl, new_event_impl, init_ev, attach_fd_to_ev, add_to_ev,
  read_persist,
}
use remote_dict.Listener.{Listener, SocketCalls, thrown, init_app, new_listener}
use remote_dict.ServiceThread.Setup.{
  ThreadContext, SetupCalls, new_context, add_event, watch_pair, run_setup, wake_socket, gave_up,
  dispatching, threw, no_init, listener_init,
}

abbrev pub is_some {ℓ} : {A : Type ℓ} → Option A → Bool
is_some none = false
is_some (some a) = true

module _ (l : LibEvent) where
  -- A byte can be written, and the event of the other end is pending in the thread's loop.
  pub record IsReady (ctx : ThreadContext l) : Type 0 where
    pub socket : ℕ
    pub writes_to : wake_socket l ctx ≡ some socket
    pub event : l.Event
    pub watches : ctx.socket_pair_event ≡ some event
    pub loop : EventImpl l
    pub running : ctx.lib_event ≡ some loop
    pub base : l.Base
    pub based : loop.pevbase ≡ some base
    pub waiting : l.pending base event ≡ true

  new_base :
      (base : l.Base)
      → l.event_base_new ≡ some base
      → init_ev l (new_event_impl l) ≡ (record (new_event_impl l) { pevbase = some base }, true)
  unfolding init_ev
  new_base base e = rw e refl

  no_base : l.event_base_new ≡ none → init_ev l (new_event_impl l) ≡ (new_event_impl l, false)
  unfolding init_ev
  no_base e = rw e refl

  watched : l.Base → ℕ × ℕ → ThreadContext l
  watched base pair =
      let e : l.Event = l.event_assign base pair.1 read_persist in
      record {
        sockets = some pair;
        lib_event = some (record (new_event_impl l) { pevbase = some (l.event_add e none base) });
        socket_pair_event = some e;
      }

  watched-IsReady : (base : l.Base) (pair : ℕ × ℕ) → IsLibEvent l → IsReady (watched base pair)
  unfolding watched wake_socket
  watched-IsReady base pair laws = record {
    socket = pair.0;
    writes_to = refl;
    event = l.event_assign base pair.1 read_persist;
    watches = refl;
    loop = record (new_event_impl l) {
      pevbase = some (l.event_add (l.event_assign base pair.1 read_persist) none base);
    };
    running = refl;
    base = l.event_add (l.event_assign base pair.1 read_persist) none base;
    based = refl;
    waiting = laws.pending-add (l.event_assign base pair.1 read_persist) none base;
  }

  -- What `run_setup` comes to, by its calls.
  SetsUp : Bool → Option l.Base → Option (ℕ × ℕ) → Type 0
  SetsUp a o p =
      (ctx : ThreadContext l) × (run_setup l (no_init l) (record { allocates = a; socketpair = p })
          (new_context l)
        ≡ some (ctx, if a && is_some o && is_some p then dispatching else gave_up))
      × (if a && is_some o && is_some p then IsReady ctx else (wake_socket l ctx ≡ none))

  sets_up :
      (a : Bool) (o : Option l.Base) (p : Option (ℕ × ℕ))
      → IsLibEvent l
      → l.event_base_new ≡ o
      → SetsUp a o p
  unfolding SetsUp run_setup watch_pair add_event attach_fd_to_ev add_to_ev wake_socket watched
  sets_up false o p laws e = (record (new_context l) { lib_event = none }, refl, refl)
  sets_up true none p laws e =
      (record (new_context l) { lib_event = some (new_event_impl l) }, rw (no_base e) refl, refl)
  sets_up true (some base) none laws e = (
    record (new_context l) { lib_event = some (record (new_event_impl l) { pevbase = some base }) },
    rw (new_base base e) refl,
    refl,
  )
  sets_up true (some base) (some pair) laws e =
      (watched base pair, rw (new_base base e) refl, watched-IsReady base pair laws)

  -- `run` of a new worker reaches its event loop exactly if the allocation, the event base and the
  -- socket pair succeed. Then there is a descriptor to write to, and the event of the other end is
  -- pending in the thread's loop; else the descriptor that `addFdToEvLoop` and `stop` write to is
  -- indeterminate.
  run_setup_lem :
      (calls : SetupCalls) → IsLibEvent l → SetsUp calls.allocates l.event_base_new calls.socketpair
  run_setup_lem calls laws = sets_up calls.allocates l.event_base_new calls.socketpair laws refl

  listener_fails :
      (calls : SocketCalls) (listener : Listener) (s : EventImpl l)
      → init_app calls new_listener ≡ thrown listener
      → listener_init l calls s ≡ some (s, false)
  unfolding listener_init
  listener_fails calls listener s fails = rw (fails, listener_init) refl

  -- `run` of the listener ends in an exception where its own calls succeed and those of
  -- `prepareTcpSvr` do not, though the socket pair is there.
  run_setup-threw :
      (base : l.Base) (pair : ℕ × ℕ) (calls : SocketCalls) (listener : Listener)
      → l.event_base_new ≡ some base
      → init_app calls new_listener ≡ thrown listener
      → run_setup l
          (listener_init l calls)
          (record { allocates = true; socketpair = some pair })
          (new_context l)
        ≡ some (watched base pair, threw)
  unfolding run_setup watch_pair add_event attach_fd_to_ev add_to_ev watched
  run_setup-threw base pair calls listener made fails =
      rw
        (
          new_base base made,
          listener_fails calls listener
              (record (new_event_impl l) {
                pevbase = some (l.event_add (l.event_assign base pair.1 read_persist) none base);
              })
              fails,
        )
        refl
