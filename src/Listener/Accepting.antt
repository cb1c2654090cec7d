-- ===== src/Listener/Accepting.antt =====
-- `Listener::initApp` and `onAccept` (server/src/Listener.cpp) over all results of their system
-- calls.
use remote_dict.Prelude.{ℕ, ◌≡◌, ◌↔◌, refl, Bool, true, false, Option, some, arith, ◌⊎◌}
use remote_dict.TcpFlow.Callback.{ev_read}
use remote_dict.Listener.{
  Fcntl, SocketCalls, Listener, InitApp, returned, thrown, init_app, prepare_tcp_svr, configure,
  is_negative, setnonblock, dropped, passed, on_accept,
}

-- Both `fcntl` calls succeed.
abbrev pub NonblockWorks : Fcntl → Type 0
NonblockWorks calls = ((n : ℕ) × (calls.flags ≡ some n)) × (calls.sets ≡ true)

nonblock_cases :
    (calls : Fcntl)
    → (NonblockWorks calls × (is_negative (setnonblock calls).0 ≡ false))
      ⊎ ((¬ NonblockWorks calls) × (is_negative (setnonblock calls).0 ≡ true))
unfolding setnonblock
nonblock_cases calls = ground arith

-- Every call after `socket` succeeds.
abbrev pub AllSucceed : SocketCalls → Type 0
AllSucceed calls =
    (calls.setsockopt ≡ true)
    × (calls.bind ≡ true)
    × (calls.listen ≡ true)
    × NonblockWorks calls.fcntl

abbrev started : InitApp → Bool
started (returned l) = true
started (thrown l) = false

-- `initApp` returns exactly when the socket is created and every call on it succeeds.
init_app_lem :
    (calls : SocketCalls) (l : Listener)
    → started (init_app calls l) ≡ true ↔ (fd : ℕ) × (calls.socket ≡ some fd) × AllSucceed calls
unfolding init_app prepare_tcp_svr configure setnonblock
init_app_lem calls l = (λ h. ground arith, λ p. ground arith)

init_app_cases : (r : InitApp) → started r ≡ true → (l : Listener) × (r ≡ returned l)
init_app_cases (returned l) h = (l, refl)
init_app_cases (thrown l) h = absurd (cc)

pub init_app-returned :
    (calls : SocketCalls) (l : Listener) (fd : ℕ)
    → calls.socket ≡ some fd
    → AllSucceed calls
    → (l' : Listener) × (init_app calls l ≡ returned l')
init_app-returned calls l fd e ok =
    init_app_cases (init_app calls l) ((init_app_lem calls l).1 (fd, e, ok))

-- A connection is passed on exactly when the event is a read event, `accept` gives a descriptor
-- and the descriptor is made non-blocking. It is dropped, with nothing to close it, exactly when
-- the event is a read event and the accepted descriptor is not made non-blocking.
pub on_accept_lem :
    (ev fd : ℕ) (accepted : Option ℕ) (calls : Fcntl)
    → (on_accept ev accepted calls ≡ passed fd
        ↔ (ev ≡ ev_read) × (accepted ≡ some fd) × NonblockWorks calls)
      × (on_accept ev accepted calls ≡ dropped fd
          ↔ (ev ≡ ev_read) × (accepted ≡ some fd) × ¬ NonblockWorks calls)
unfolding on_accept
on_accept_lem ev fd accepted calls = (
  (λ h. ground (arith, nonblock_cases calls), λ p. ground (arith, nonblock_cases calls)),
  (λ h. ground (arith, nonblock_cases calls), λ p. ground (arith, nonblock_cases calls)),
)
