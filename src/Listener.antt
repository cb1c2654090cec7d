-- ===== src/Listener.antt =====
-- server/include/Listener.h and server/src/Listener.cpp, with `Helper::setnonblock`
-- (util/include/Helper.h): the listening socket and the accept callback. The results of the
-- system calls are arguments.
pub mod Accepting
use Prim.Native.Nat.{bit_or}
use remote_dict.Prelude.{
  ℕ, zero, Bool, true, false, not, Option, none, some, List, [], ◌∷◌, ◌==◌, if◌then◌else◌, ℤ, pos,
  negsuc,
}
use remote_dict.TcpFlow.Callback.{ev_read}

-- O_NONBLOCK of Linux.
abbrev pub o_nonblock : ℕ
o_nonblock = 2048

-- What `fcntl(fd, F_GETFL)` gives, `none` for -1, and whether F_SETFL succeeds.
pub record Fcntl : Type 0 where
  pub flags : Option ℕ
  pub sets : Bool

-- The result of `setnonblock`, and the flags that the descriptor then has if they were set.
unfoldable pub setnonblock : Fcntl → ℤ × Option ℕ
setnonblock calls = elim calls.flags [
  | none ↦ (negsuc 0, none)
  | some flags ↦ if calls.sets then (pos 0, some (bit_or flags o_nonblock)) else (negsuc 0, none)
]

abbrev pub is_negative : ℤ → Bool
is_negative (pos n) = false
is_negative (negsuc n) = true

-- The results of the calls of `prepareTcpSvr`, in order; `socket` is `none` for -1.
pub record SocketCalls : Type 0 where
  pub socket : Option ℕ
  pub setsockopt : Bool
  pub bind : Bool
  pub listen : Bool
  pub fcntl : Fcntl

-- `closed` are the descriptors that the listener has closed.
pub record Listener : Type 0 where
  pub file_descriptor : Option ℕ
  pub has_event : Bool
  pub closed : List ℕ

abbrev pub new_listener : Listener
new_listener = record { file_descriptor = none; has_event = false; closed = [] }

-- Whether the socket is listening and non-blocking in the end.
unfoldable pub configure : SocketCalls → Bool
unfolding setnonblock
configure calls =
    if not calls.setsockopt
    then false
    else if not calls.bind
    then false
    else if not calls.listen
    then false
    else if is_negative (setnonblock calls.fcntl).0
    then false
    else true

-- `prepareTcpSvr`.
unfoldable pub prepare_tcp_svr : SocketCalls → Listener → ℤ × Listener
unfolding configure
prepare_tcp_svr calls l = elim calls.socket [
  | none ↦ (negsuc 0, record l { file_descriptor = none })
  | some fd ↦ (if configure calls then pos 0 else negsuc 0, record l { file_descriptor = some fd })
]

-- How `initApp` ends: by a return or by the exception.
pub data InitApp : Type 0 where
  returned : Listener → InitApp
  thrown : Listener → InitApp

unfoldable pub init_app : SocketCalls → Listener → InitApp
unfolding prepare_tcp_svr
init_app calls l =
    let (result, l') = prepare_tcp_svr calls l in
    elim result [ pos zero ↦ returned (record l' { has_event = true }) | _ ↦ thrown l' ]

-- `cleanState`.
unfoldable pub clean_state : Listener → Listener
clean_state l = record l {
  has_event = false;
  closed = elim l.file_descriptor [ none ↦ l.closed | some fd ↦ fd ∷ l.closed ];
}

-- How `onAccept` ends. `dropped` is an accepted descriptor that goes neither to the callback nor
-- to `close`.
pub data Accept : Type 0 where
  ignored : Accept
  failed : Accept
  dropped : ℕ → Accept
  passed : ℕ → Accept

-- `accepted` is the result of `accept`, `none` for -1.
unfoldable pub on_accept : ℕ → Option ℕ → Fcntl → Accept
unfolding setnonblock
on_accept ev accepted calls = if not (ev == ev_read) then ignored else elim accepted [
  | none ↦ failed
  | some fd ↦ if is_negative (setnonblock calls).0 then dropped fd else passed fd
]
