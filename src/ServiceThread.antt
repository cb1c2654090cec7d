-- ===== src/ServiceThread.antt =====
-- server/include/ServiceThread.h and server/src/ServiceThread.cpp: a thread with an event loop,
-- a queue of client descriptors and a socket pair that wakes it. `S` is the state of the derived
-- class, and `Handlers` are its overrides.
pub mod Wakeups
pub mod Stopping
pub mod Setup
pub mod Joining
use remote_dict.Prelude.{
  ℕ, Bool, true, false, Option, none, some, List, [], ◌∷◌, ◌++◌, length, ◌==◌, if◌then◌else◌,
}

pub record Handlers {ℓ} (S : Type ℓ) : Type ℓ where
  pub process_event : ℕ → S → S
  pub clean_state : S → S

-- `wakes` are the bytes in the socket pair that the thread has not read. `loop_exit` is set once
-- `exitLoop` has been called. `closed` are the descriptors that a failed hand-over has closed.
pub record Thread {ℓ} (S : Type ℓ) : Type ℓ where
  pub queue : List ℕ
  pub wakes : List ℕ
  pub process_exiting : Bool
  pub loop_exit : Bool
  pub exited : Bool
  pub closed : List ℕ
  pub app : S

abbrev pub wake_client : ℕ
wake_client = b'c'

abbrev pub wake_exit : ℕ
wake_exit = b'e'

module _ {ℓ} {S : Type ℓ} where
  -- The constructor, and the new context of `start`.
  abbrev pub new_thread : S → Thread S
  new_thread app = record {
    queue = [];
    wakes = [];
    process_exiting = false;
    loop_exit = false;
    exited = false;
    closed = [];
    app = app;
  }

  abbrev pub get_current_fd_queue_size : Thread S → ℕ
  get_current_fd_queue_size t = length t.queue

  -- A byte that `write` has put into the socket pair.
  unfoldable pub write_wake : ℕ → Thread S → Thread S
  write_wake byte t = record t { wakes = t.wakes ++ (byte ∷ []) }

  unfoldable pub push_fd : ℕ → Thread S → Thread S
  push_fd fd t = record t { queue = t.queue ++ (fd ∷ []) }

  -- `sent` says whether the one byte went into the socket pair.
  unfoldable pub add_fd_to_ev_loop : Bool → ℕ → Thread S → Thread S × Bool
  unfolding write_wake push_fd
  add_fd_to_ev_loop sent fd t =
      if sent
      then (push_fd fd (write_wake wake_client t), true)
      else (record t { closed = fd ∷ t.closed }, false)

  -- The part of `stop` before it waits for `m_exited`.
  unfoldable pub stop : Bool → Thread S → Thread S × Bool
  unfolding write_wake
  stop sent t =
      let t' = record t { process_exiting = true } in
      if sent then (write_wake wake_exit t', true) else (t', false)

  unfoldable pub stop_thread : Thread S → Thread S
  stop_thread t = record t { loop_exit = true }

  -- What `run` does once the event loop has returned.
  unfoldable pub end_run : Thread S → Thread S
  end_run t = record t { exited = true }

  module _ (handlers : Handlers S) where
    unfoldable pub drain : List ℕ → S → S
    drain [] app = app
    drain (fd ∷ fds) app = drain fds (handlers.process_event fd app)

    -- The part of `onEvent` under the lock.
    unfoldable pub drain_queue : Thread S → Thread S
    unfolding drain
    drain_queue t = record t { queue = []; app = drain t.queue t.app }

    unfoldable pub on_byte : ℕ → Thread S → Thread S
    unfolding stop_thread drain_queue
    on_byte byte t =
        if byte == wake_exit
        then stop_thread (record t { app = handlers.clean_state t.app })
        else drain_queue t

    -- The callback of the socket pair; a read that gives no byte ends it.
    unfoldable pub on_event : Thread S → Thread S
    unfolding on_byte
    on_event t = elim t.wakes [ [] ↦ t | byte ∷ rest ↦ on_byte byte (record t { wakes = rest }) ]

    -- The events of the bytes in the socket pair, and the end of `run` once one has told it to exit.
    unfoldable pub run_out : List ℕ → Thread S → Thread S
    unfolding on_byte
    run_out [] t = if t.loop_exit then end_run t else t
    run_out (byte ∷ rest) t = run_out rest (on_byte byte (record t { wakes = rest }))

    -- `stop` with its wait for `m_exited`: the thread behind it, or none if the wait does not end.
    -- `loops` says whether `run` has got to its event loop.
    unfoldable pub join : Bool → Bool → Thread S → Option (Thread S × Bool)
    unfolding stop run_out
    join sent loops t =
        let (t', ok) = stop sent t in
        let u = if loops then run_out t'.wakes t' else t' in
        if ok then (if u.exited then some (u, true) else none) else some (t', false)
