-- ===== src/Client.antt =====
-- client/include/Client.h and client/src/Client.cpp: one client thread, which opens a connection
-- for each of its requests. The results of the system calls and of the clocks are arguments.
-- `none` is undefined behaviour: the use of an indeterminate `type`, or of a failed allocation.
pub mod Framing
pub mod Sending
pub mod Served
pub mod RoundTrip
use remote_dict.Prelude.{
  ℕ, zero, suc, ◌+◌, ◌*◌, ◌/◌, ◌%◌, Bool, true, false, not, Option, none, some, List, [], ◌∷◌, ◌++◌,
  length, take, ◌==◌, if◌then◌else◌, ◌>>=◌, ℤ, pos, negsuc, u32_mod,
}
use remote_dict.Text.{Text}
use remote_dict.Payload
use remote_dict.Payload.{Payload, Codec}

pub data MessageType : Type 0 where
  get set stat : MessageType

-- `type` is `none` while it is indeterminate: the constructor leaves it so.
pub record Message : Type 0 where
  pub type : Option MessageType
  pub key : Text
  pub value : Text

abbrev pub new_message : Message
new_message = record { type = none; key = []; value = [] }

pub record ResultData : Type 0 where
  pub payload : Payload
  pub timestamp : ℕ

-- `open_fds` are the descriptors that the process has open through this client. The constructor
-- does not set `m_averageLatency`, so its first value is an argument of `new_client`.
pub record Client : Type 0 where
  pub fd : Option ℕ
  pub average_latency : ℕ
  pub inputdata : List Message
  pub results : List ResultData
  pub open_fds : List ℕ

abbrev pub new_client : ℕ → List Message → Client
new_client garbage input = record {
  fd = none;
  average_latency = garbage;
  inputdata = input;
  results = [];
  open_fds = [];
}

-- MAX
abbrev pub max_response : ℕ
max_response = 80

-- `Payload_RequestType(msg.type)`
unfoldable pub request_type : MessageType → Payload.RequestType
request_type MessageType.get = Payload.RequestType.get
request_type MessageType.set = Payload.RequestType.set
request_type MessageType.stat = Payload.RequestType.stat

-- The request of a message, or `none` for a SET without a value.
unfoldable pub build_request : MessageType → Message → Option Payload
unfolding request_type
build_request MessageType.get m =
    some
      (record Payload.empty { requesttype = some (request_type MessageType.get); key = some m.key })
build_request MessageType.set m = elim m.value [
  | [] ↦ none
  | x ∷ rest ↦ some (record Payload.empty {
    requesttype = some (request_type MessageType.set);
    key = some m.key;
    value = some (x ∷ rest);
  })
]
build_request MessageType.stat m =
    some (record Payload.empty { requesttype = some (request_type MessageType.stat) })

-- `memcpy(send_buffer, &size, 4)` on a little-endian host.
unfoldable pub size_bytes : ℕ → Text
size_bytes size =
    (size % 256) ∷ (size / 256 % 256) ∷ (size / 65536 % 256) ∷ (size / 16777216 % 256) ∷ []

-- The send buffer: the four bytes of the length, and the serialized message, which is shorter than
-- 2 ^ 32 - 4 bytes, so that the size of the buffer does not wrap.
unfoldable pub frame : Codec → Payload → Text
unfolding size_bytes
frame codec p = let message = codec.serialize p in size_bytes (length message % u32_mod) ++ message

-- `m_averageLatency` after a request that took so many microseconds.
unfoldable pub next_latency : ℕ → ℕ → ℕ
next_latency average duration =
    if average == 0 then duration else (average + duration) % u32_mod / 2

-- What `send_data` meets: how many bytes `write` takes, what `read` finds (`none` for -1), and
-- the clocks. `read` gives at most the size of the buffer.
pub record Exchange : Type 0 where
  pub written : Option ℕ
  pub response : Option Text
  pub timestamp : ℕ
  pub duration : ℕ

unfoldable pub remove_fd : Option ℕ → List ℕ → List ℕ
remove_fd none fds = fds
remove_fd (some fd) [] = []
remove_fd (some fd) (x ∷ fds) = if x == fd then fds else x ∷ remove_fd (some fd) fds

-- The part of `sendData` behind a successful `read`.
unfoldable pub store_result : Codec → Text → Exchange → Client → Client
unfolding next_latency remove_fd
store_result codec buff x c = record c {
  results = c.results ++ (record { payload = (codec.parse buff).1; timestamp = x.timestamp } ∷ []);
  open_fds = remove_fd c.fd c.open_fds;
  average_latency = next_latency c.average_latency (x.duration % u32_mod);
}

-- `sendData`: the bytes given to `write` if it got so far, the returned value and the client.
unfoldable pub send_request : Codec → Payload → Exchange → Client → Option Text × ℤ × Client
unfolding frame store_result
send_request codec p x c = elim x.written [
  | none ↦ (some (frame codec p), negsuc 0, c)
  | some len ↦ elim x.response [
    | none ↦ (some (frame codec p), pos len, c)
    | some text ↦ (some (frame codec p), pos len, store_result codec (take max_response text) x c)
  ]
]

unfoldable pub send_typed :
    Codec → MessageType → Message → Exchange → Client → Option Text × ℤ × Client
unfolding build_request send_request
send_typed codec type m x c = elim (build_request type m) [
  | none ↦ (none, negsuc 0, c)
  | some p ↦ send_request codec p x c
]

unfoldable pub send_data : Codec → Message → Exchange → Client → Option (Option Text × ℤ × Client)
unfolding send_typed
send_data codec m x c = do type ← m.type; some (send_typed codec type m x c)

-- What `startClient` meets: the new socket, and whether `connect` succeeds.
pub record Connect : Type 0 where
  pub socket : Option ℕ
  pub connects : Bool

unfoldable pub start_client : Connect → Client → Bool × Client
start_client calls c = elim calls.socket [
  | none ↦ (false, record c { fd = none })
  | some fd ↦ (calls.connects, record c { fd = some fd; open_fds = fd ∷ c.open_fds })
]

unfoldable pub run_one : Codec → Message → Connect × Exchange → Client → Option Client
unfolding start_client send_data
run_one codec m (calls, x) c =
    let (connected, c') = start_client calls c in
    if connected then (send_data codec m x c' >>= λ r. some r.2) else some c'

-- The loop of `run` over the input, with what each round meets.
unfoldable pub run_loop : Codec → List Message → List (Connect × Exchange) → Client → Option Client
unfolding run_one
run_loop codec (m ∷ ms) (e ∷ es) c = run_one codec m e c >>= run_loop codec ms es
run_loop codec _ _ c = some c

unfoldable pub run : Codec → List (Connect × Exchange) → Client → Option Client
unfolding run_loop
run codec es c = run_loop codec c.inputdata es c
