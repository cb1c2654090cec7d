-- ===== src/System.antt =====
-- The client program and the server together: client/src/Client.cpp over server/src/TcpFlow.cpp.
-- Each request of a client thread goes over a connection of its own, which the server's callback
-- answers in one wake-up; the requests of all threads are served one after the other in any order.
pub mod Answers
pub mod Merge
pub mod Program
use remote_dict.Prelude.{
  ℕ, ◌+◌, Bool, true, Option, none, some, List, [], ◌∷◌, ◌++◌, map, length, take, drop, ◌==◌,
  if◌then◌else◌, ◌>>=◌,
}
use remote_dict.Text.{Text}
use remote_dict.BloomFilter.{BloomFilter}
use remote_dict.Payload.{Payload, Codec}
use remote_dict.TcpFlow.Buffer.{received, new_flow}
use remote_dict.TcpFlow.Write.{Write, Written, returned, looping}
use remote_dict.TcpFlow.Requests.{World}
use remote_dict.TcpFlow.Callback.{data_event, ev_read}
use remote_dict.Client.{MessageType, Message, Connect, Exchange, build_request, frame}

-- What the systems on both sides do for one request: the client's descriptor, the sizes of the
-- server's reads but the last, its descriptor, the address of its flow, what its socket takes, and
-- the client's clocks.
pub record Round : Type 0 where
  pub socket : ℕ
  pub cuts : List ℕ
  pub fd : ℕ
  pub addr : Text
  pub writes : List Write
  pub timestamp : ℕ
  pub duration : ℕ

-- A request of a thread of the client.
pub record Turn : Type 0 where
  pub thread : ℕ
  pub message : Message
  pub round : Round

-- The text in pieces of these sizes and the rest.
unfoldable pub split : List ℕ → Text → List Text
split [] text = text ∷ []
split (n ∷ ns) text = take n text ∷ split ns (drop n text)

-- The bytes that a call of `socketWriteData` has put on the connection.
unfoldable pub sent : Written → Text
sent (returned n text) = text
sent (looping text) = text

-- The connection opens, and the socket takes the whole frame.
unfoldable pub connection : Round → Connect
connection r = record { socket = some r.socket; connects = true }

-- The entries of thread `i`.
unfoldable pub own {ℓ} : {A : Type ℓ} → ℕ → List (ℕ × A) → List A
own i [] = []
own i ((j, x) ∷ xs) = let rest = own i xs in if j == i then x ∷ rest else rest

module _ (b : BloomFilter) (codec : Codec) (alloc : ℕ → Bool) where
  -- The request of a message at the server: what the client meets, which finds in its socket what
  -- the server has written. `none` is undefined behaviour, no request, or no response.
  unfoldable pub exchange :
      MessageType → Message → Round → World b → Option ((Connect × Exchange) × World b)
  unfolding connection sent split
  exchange type m r w = do
    p ← build_request type m
    let text = frame codec p
    done ←
        data_event b codec alloc r.fd ev_read (map received (split r.cuts text)) r.writes
          (new_flow r.addr) w
    out ← done.response
    some (
      (
        connection r,
        record {
          written = some (length text);
          response = some (sent out);
          timestamp = r.timestamp;
          duration = r.duration;
        },
      ),
      done.world,
    )

  -- The requests in the order in which the server takes them: what each thread meets.
  unfoldable pub serve : List Turn → World b → Option (List (ℕ × (Connect × Exchange)) × World b)
  unfolding exchange
  serve [] w = some ([], w)
  serve (t ∷ ts) w = do
    type ← t.message.type
    e ← exchange type t.message t.round w
    rest ← serve ts e.1
    some ((t.thread, e.0) ∷ rest.0, rest.1)
