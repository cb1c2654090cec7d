-- ===== src/Client/Served.antt =====
-- A request of the client, through the server's callback: client/src/Client.cpp with
-- server/src/TcpFlow.cpp.
use remote_dict.Prelude.{
  ℕ, ◌+◌, ◌<◌, ◌≡◌, Bool, true, false, some, List, [], ◌∷◌, ◌++◌, map, length, u32_mod, arith,
}
use remote_dict.Text.{Text}
use remote_dict.BloomFilter.{BloomFilter, NoFalseNegatives}
use remote_dict.Payload.{Payload, Codec, IsCodec}
use remote_dict.TcpFlow.Buffer.{Flow, received, num_read_try}
use remote_dict.TcpFlow.Write.{Write, socket_write_data}
use remote_dict.TcpFlow.Requests.{World, handle_request}
use remote_dict.TcpFlow.Callback.{Done, data_event, ev_read}
use remote_dict.TcpFlow.Reassembly.{concat, NonEmpty}
use remote_dict.TcpFlow.Messages.{IsFresh, data_event-request}
use remote_dict.TcpFlow.Semantics.{IsSound, handle_request-IsSound}
use remote_dict.Client.{MessageType, Message, build_request, request_type, frame}
use remote_dict.Client.Framing.{frame-Delivery}

pub build_request-type :
    (type : MessageType) (m : Message) (p : Payload)
    → build_request type m ≡ some p
    → p.requesttype ≡ some (request_type type)
unfolding build_request
build_request-type MessageType.get m p h = ground arith
build_request-type MessageType.set m p h = ground arith
build_request-type MessageType.stat m p h = ground arith

module _ (b : BloomFilter) (laws : NoFalseNegatives b) (codec : Codec) (alloc : ℕ → Bool) where
  -- The frame of a request that the client builds, shorter than 2 ^ 32 bytes and cut into a first
  -- read that goes past the header and less than 50 further reads with bytes in each, reaches the
  -- handler of its type on a fresh connection of a sound server that can allocate: the connection
  -- stays, the state is the handler's and sound, and what is written is the handler's answer,
  -- serialized, and one zero byte.
  request-served :
      (type : MessageType) (m : Message) (p : Payload) (first : Text) (chunks : List Text) (fd : ℕ)
      (writes : List Write) (f : Flow) (w : World b)
      → IsCodec codec
      → ((n : ℕ) → alloc n ≡ true)
      → build_request type m ≡ some p
      → length (codec.serialize p) + 4 < u32_mod
      → first ++ concat chunks ≡ frame codec p
      → 4 < length first
      → NonEmpty chunks
      → length chunks < num_read_try
      → IsFresh f
      → IsSound b laws w
      → (done : Done b) × (data_event b codec alloc fd ev_read
            (map received (first ∷ chunks))
            writes
            f
            w
          ≡ some done)
        × (done.gone ≡ false)
        × (handle_request b (request_type type) p w ≡ some (done.flow.payload, done.world))
        × IsSound b laws done.world
        × (done.response
            ≡ some (socket_write_data writes (codec.serialize done.flow.payload ++ (0 ∷ []))))
  request-served type m p first chunks fd writes f w is_codec room built small cut past full few
        fresh sound =
      let typed : p.requesttype ≡ some (request_type type) = build_request-type type m p built in
      let (q, w', e, sound') = handle_request-IsSound b laws (request_type type) p w sound in
      let (done, runs, stays, state, answer, sent, _) =
        data_event-request b codec alloc fd (map received (first ∷ chunks)) writes f p q w w'
          (request_type type) is_codec fresh
          (frame-Delivery codec p first chunks (omega arith) cut past full few) small (room _) typed
          e (room _) in
      (done, runs, stays, rw (answer, state) e, rw state sound', rw answer sent)
