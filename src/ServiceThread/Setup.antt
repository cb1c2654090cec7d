-- ===== src/ServiceThread/Setup.antt =====
-- The context of a service thread, and `ServiceThread::run` (server/src/ServiceThread.cpp) up to its
-- event loop: the event base, the socket pair and `initApp`. `none` is a call on a null event base,
-- or the use of an indeterminate descriptor.
pub mod Ready
use mathlib.Core.Option
use remote_dict.Prelude.{ℕ, Bool, true, false, Option, none, some, if◌then◌else◌, ◌>>=◌}
use remote_dict.Listener.{SocketCalls, returned, thrown, init_app, new_listener}
use remote_dict.EventImpl.{
  LibEvent, EventImpl, new_event_impl, init_ev, attach_fd_to_ev, add_to_ev, remove_from_ev,
}

-- `ThreadContextT` without the queue and its mutex. The constructor leaves `m_sockets`
-- indeterminate, and with it what is written to them.
pub record ThreadContext (l : LibEvent) : Type 0 where
  pub sockets : Option (ℕ × ℕ)
  pub lib_event : Option (EventImpl l)
  pub socket_pair_event : Option l.Event

-- Whether the event loop's object is allocated, and what `socketpair` makes.
pub record SetupCalls : Type 0 where
  pub allocates : Bool
  pub socketpair : Option (ℕ × ℕ)

-- How `run` goes: it has returned before `initApp`, it has ended in an exception of `initApp`, or it
-- has got to its event loop.
pub data Reached : Type 0 where
  gave_up : Reached
  threw : Reached
  dispatching : Reached

module _ (l : LibEvent) where
  -- An override of `initApp`: the loop behind it, and whether it has returned or thrown.
  abbrev pub InitApp : Type 0
  InitApp = EventImpl l → Option (EventImpl l × Bool)

  -- `ServiceThread::initApp`, which a worker does not override.
  abbrev pub no_init : InitApp
  no_init s = some (s, true)

  -- The new context of `start`.
  abbrev pub new_context : ThreadContext l
  new_context = record { sockets = none; lib_event = none; socket_pair_event = none }

  -- `addEvent`, and the two lines of `run` that do the same for the socket pair.
  unfoldable pub add_event : ℕ → EventImpl l → Option (l.Event × EventImpl l)
  unfolding attach_fd_to_ev add_to_ev
  add_event fd s = do e ← attach_fd_to_ev l fd s; s' ← add_to_ev l e none s; some (e, s')

  unfoldable pub delete_event : l.Event → ThreadContext l → Option (ThreadContext l)
  unfolding remove_from_ev
  delete_event e ctx = do
    s ← ctx.lib_event
    some (record ctx { lib_event = some (remove_from_ev l e s) })

  -- `Listener::initApp`: an event for the socket of `prepareTcpSvr`, or an exception.
  unfoldable pub listener_init : SocketCalls → InitApp
  unfolding add_event init_app
  listener_init calls s = elim (init_app calls new_listener) [
    | thrown listener ↦ some (s, false)
    | returned listener ↦ do fd ← listener.file_descriptor; r ← add_event fd s; some (r.1, true)
  ]

  -- `run` behind `socketpair`, which ignores what `setnonblock` gives.
  unfoldable pub watch_pair : InitApp → ℕ × ℕ → EventImpl l → Option (ThreadContext l × Reached)
  unfolding add_event
  watch_pair init pair s = do
    r ← add_event pair.1 s
    i ← init r.1
    some (
      record { sockets = some pair; lib_event = some i.0; socket_pair_event = some r.0 },
      if i.1 then dispatching else threw,
    )

  unfoldable pub run_setup :
      InitApp → SetupCalls → ThreadContext l → Option (ThreadContext l × Reached)
  unfolding watch_pair init_ev
  run_setup init calls ctx =
      if calls.allocates
      then (let (s, initiated) = init_ev l (new_event_impl l) in
          if initiated
          then (elim calls.socketpair [
            | none ↦ some (record ctx { lib_event = some s }, gave_up)
            | some pair ↦ watch_pair init pair s
          ])
          else some (record ctx { lib_event = some s }, gave_up))
      else some (record ctx { lib_event = none }, gave_up)

  -- `m_sockets[0]`, to which `addFdToEvLoop` and `stop` write.
  unfoldable pub wake_socket : ThreadContext l → Option ℕ
  wake_socket ctx = do pair ← ctx.sockets; some pair.0
