-- ===== src/TcpFlow/Messages.antt =====
-- One request of a client, through the callback `TcpFlow::data` (server/src/TcpFlow.cpp).
pub mod Sequences
use native.Mathlib.Nat.{sub_self}
use remote_dict.Prelude.{
  ℕ, ◌+◌, ◌%◌, ◌≤◌, ◌<◌, ◌≡◌, refl, subst, Bool, true, false, none, some, List, [], ◌∷◌, ◌++◌,
  length, append-nil, arith, length-append, ◌>>=◌, u32_mod, map, ap,
}
use remote_dict.Text.{Text}
use remote_dict.BloomFilter.{BloomFilter}
use remote_dict.Payload.{Payload, RequestType, Codec, IsCodec}
use remote_dict.TcpFlow.Buffer.{Flow, Read, received, finished, read_loop, le32, num_read_try}
use remote_dict.TcpFlow.Write.{Write, socket_write_data}
use remote_dict.TcpFlow.Requests.{World, handle_request}
use remote_dict.TcpFlow.Callback.{
  Done, ev_read, send_response, message_bytes, parse, after_reads, data_event,
}
use remote_dict.TcpFlow.Reassembly.{Holds, first-Holds, read_loop-Holds, concat, NonEmpty}

-- A connection on which nothing has come in.
pub record IsFresh (f : Flow) : Type 0 where
  pub null : f.buffer ≡ none
  pub nothing : f.len_till_now ≡ 0

-- A message as the network delivers it: a header for `n` bytes, at least one byte with it, and
-- the rest in chunks, few enough for the read loop.
pub record Delivery (message : Text) (reads : List Read) : Type 0 where
  pub a : ℕ
  pub b : ℕ
  pub c : ℕ
  pub d : ℕ
  pub x : ℕ
  pub start : Text
  pub chunks : List Text
  pub header : le32 (a ∷ b ∷ c ∷ d ∷ []) ≡ length message
  pub whole : (x ∷ start) ++ concat chunks ≡ message
  pub nonempty : NonEmpty chunks
  pub enough : length chunks < num_read_try
  pub as_reads : reads ≡ received (a ∷ b ∷ c ∷ d ∷ x ∷ start) ∷ map received chunks

pub read_loop-Delivery :
    (alloc : ℕ → Bool) (f : Flow) (message : Text) (reads : List Read)
    → IsFresh f
    → Delivery message reads
    → alloc (length message) ≡ true
    → length message + 4 < u32_mod
    → (f' : Flow) × (read_loop alloc num_read_try reads f ≡ some (finished f' []))
      × Holds f' message (length message)
unfolding read_loop
read_loop-Delivery alloc f message reads fresh v room small =
    let sizes : length (v.x ∷ v.start) + length (concat v.chunks) ≡ length message =
      omega (arith, length-append (v.x ∷ v.start) (concat v.chunks), ap (length {A = ℕ}) v.whole) in
    let (f₁, e, h) =
      first-Holds alloc f v.a v.b v.c v.d v.x v.start (length message) fresh.null fresh.nothing
        v.header room (omega arith) small in
    let (f₂, e', h') =
      read_loop-Holds alloc 49 f₁ (v.x ∷ v.start) v.chunks (length message) h v.nonempty
        (omega (arith, v.enough)) (omega arith) small in
    (f₂, rw v.as_reads (rw e e'), subst (λ m. Holds f₂ m (length message)) v.whole h')

module _ (b : BloomFilter) (codec : Codec) (alloc : ℕ → Bool) where
  -- A flow that holds a whole message parses it.
  message_bytes-Holds :
      (f : Flow) (message : Text)
      → Holds f message (length message)
      → message_bytes b codec alloc f ≡ some message
  unfolding message_bytes
  message_bytes-Holds f message h = rw (h.filled, message_bytes, sub_self) (rw append-nil refl)

  pub parse-Holds :
      (writes : List Write) (f : Flow) (p q : Payload) (w w' : World b) (type : RequestType)
      → IsCodec codec
      → Holds f (codec.serialize p) (length (codec.serialize p))
      → p.requesttype ≡ some type
      → handle_request b type p w ≡ some (q, w')
      → alloc ((length (codec.serialize q) + 1) % u32_mod) ≡ true
      → (done : Done b) × (parse b codec alloc writes f w ≡ some done)
        × (done.gone ≡ false)
        × (done.world ≡ w')
        × (done.flow.payload ≡ q)
        × (done.response ≡ some (socket_write_data writes (codec.serialize q ++ (0 ∷ []))))
  unfolding parse send_response
  parse-Holds writes f p q w w' type laws h t e room =
      let c : codec.parse (codec.serialize p) ≡ (true, p) = laws.parse-serialize p (λ n. cc) in
      (
        record {
          flow = record f { payload = q };
          gone = false;
          world = w';
          response = some (socket_write_data writes (codec.serialize q ++ (0 ∷ [])));
          unread = [];
        },
        ground (arith, message_bytes-Holds f (codec.serialize p) h, c),
        refl,
        refl,
        refl,
        refl,
      )

  -- The test behind the loop, for a flow that has its header: it counts the header's four bytes
  -- as payload.
  pub after_reads-Holds :
      (writes : List Write) (w : World b) (f : Flow) (got : Text) (n : ℕ) (rest : List Read)
      → Holds f got n
      → n ≤ 4 + length got
      → after_reads b codec alloc writes w (finished f rest)
        ≡ (parse b codec alloc writes f w >>= λ d. some (record d { unread = rest }))
  unfolding after_reads
  after_reads-Holds writes w f got n rest h le = ground (arith, h.announced, h.counted)

  -- The callback whose reads have completed a message: what it answers to a request.
  completes :
      (fd : ℕ) (reads : List Read) (writes : List Write) (f f' : Flow) (p q : Payload)
      (w w' : World b) (type : RequestType)
      → IsCodec codec
      → read_loop alloc num_read_try reads (record f { client_fd = some fd })
        ≡ some (finished f' [])
      → Holds f' (codec.serialize p) (length (codec.serialize p))
      → p.requesttype ≡ some type
      → handle_request b type p w ≡ some (q, w')
      → alloc ((length (codec.serialize q) + 1) % u32_mod) ≡ true
      → (done : Done b) × (data_event b codec alloc fd ev_read reads writes f w ≡ some done)
        × (done.gone ≡ false)
        × (done.world ≡ w')
        × (done.flow.payload ≡ q)
        × (done.response ≡ some (socket_write_data writes (codec.serialize q ++ (0 ∷ []))))
        × (done.unread ≡ [])
  unfolding data_event
  completes fd reads writes f f' p q w w' type laws l h t e room' =
      let (done, r, g, o, m, s) = parse-Holds writes f' p q w w' type laws h t e room' in
      (
        record done { unread = [] },
        rw (l, after_reads-Holds writes w f' (codec.serialize p) _ [] h (omega arith), r) refl,
        g,
        o,
        m,
        s,
        refl,
      )

  -- A message with a request type, shorter than 2 ^ 32 - 4 bytes, that comes in on a fresh
  -- connection split into reads in any way that a delivery allows, where both buffers can be
  -- allocated and the handler gives an answer, is handled once and as the message that was
  -- serialized: the callback ends with the handler's state and answer, the connection stays, and
  -- what is written is the serialized answer followed by one zero byte.
  pub data_event-request :
      (fd : ℕ) (reads : List Read) (writes : List Write) (f : Flow) (p q : Payload) (w w' : World b)
      (type : RequestType)
      → IsCodec codec
      → IsFresh f
      → Delivery (codec.serialize p) reads
      → length (codec.serialize p) + 4 < u32_mod
      → alloc (length (codec.serialize p)) ≡ true
      → p.requesttype ≡ some type
      → handle_request b type p w ≡ some (q, w')
      → alloc ((length (codec.serialize q) + 1) % u32_mod) ≡ true
      → (done : Done b) × (data_event b codec alloc fd ev_read reads writes f w ≡ some done)
        × (done.gone ≡ false)
        × (done.world ≡ w')
        × (done.flow.payload ≡ q)
        × (done.response ≡ some (socket_write_data writes (codec.serialize q ++ (0 ∷ []))))
        × (done.unread ≡ [])
  data_event-request fd reads writes f p q w w' type laws fresh v small room t e room' =
      let (f', l, h) =
        read_loop-Delivery alloc (record f { client_fd = some fd }) (codec.serialize p) reads
          (record { null = fresh.null; nothing = fresh.nothing }) v room small in
      completes fd reads writes f f' p q w w' type laws l h t e room'
