-- ===== src/TcpFlow/Faults.antt =====
-- Where `TcpFlow::data` (server/src/TcpFlow.cpp) leaves the path of one message that comes in as
-- the client sent it: too many bytes, too few, or none.
pub mod Second
use remote_dict.Prelude.{
  ℕ, ◌+◌, ◌-◌, ◌≤◌, ◌<◌, ◌≡◌, refl, Bool, true, none, some, List, [], ◌∷◌, ◌++◌, length, arith,
  length-append, length-replicate, ◌>>=◌, lt→leb, replicate,
}
use remote_dict.Text.{Text}
use remote_dict.BloomFilter.{BloomFilter}
use remote_dict.Payload.{Codec, IsCodec}
use remote_dict.TcpFlow.Buffer.{
  Flow, Read, received, failed, finished, read_loop, le32, receive, append_chunk, memcpy, new_flow,
  eagain,
}
use remote_dict.TcpFlow.Write.{Write}
use remote_dict.TcpFlow.Requests.{World}
use remote_dict.TcpFlow.Callback.{Done, ev_read, message_bytes, parse, after_reads, data_event}
use remote_dict.TcpFlow.Reassembly.{Holds}
use remote_dict.TcpFlow.Messages.{IsFresh, after_reads-Holds}

module _ (alloc : ℕ → Bool) where
  -- For a flow that has got a part of its message, or all of it, a chunk that goes past the
  -- announced length is written past the allocation.
  pub receive-overflow :
      (f : Flow) (got chunk : Text) (n : ℕ)
      → Holds f got n
      → length got ≤ n
      → n < length got + length chunk
      → receive alloc chunk f ≡ none
  unfolding receive append_chunk memcpy
  receive-overflow f got chunk n h le over =
      let tail : Text = replicate (n - length got) 0 in
      let room : length (got ++ tail) < length got + length chunk =
        omega (arith, length-append got tail, length-replicate {A = ℕ} (n - length got) 0) in
      rw
        (
          h.filled,
          receive,
          h.offset,
          lt→leb (length (got ++ tail)) (length got + length chunk) room,
        )
        refl

  -- On a fresh connection whose `m_currlen` is indeterminate, with a buffer that can be allocated, a
  -- first read of exactly the header and any chunk after it use the indeterminate value.
  pub header_alone :
      (f : Flow) (a b c d : ℕ) (chunk : Text)
      → IsFresh f
      → f.currlen ≡ none
      → alloc (le32 (a ∷ b ∷ c ∷ d ∷ [])) ≡ true
      → (receive alloc (a ∷ b ∷ c ∷ d ∷ []) f >>= receive alloc chunk) ≡ none
  unfolding receive append_chunk le32
  header_alone f a b c d chunk fresh unset room = ground (arith, fresh.null, fresh.nothing)

module _ (b : BloomFilter) (codec : Codec) (alloc : ℕ → Bool) where
  -- When a flow that has got a part of its message has up to four bytes of it missing after the
  -- reads, the callback parses already, and takes the zeros of the allocation for the missing
  -- bytes.
  pub after_reads_early :
      (writes : List Write) (w : World b) (f : Flow) (got : Text) (n : ℕ) (rest : List Read)
      → Holds f got n
      → n ≤ 4 + length got
      → (after_reads b codec alloc writes w (finished f rest)
          ≡ (parse b codec alloc writes f w >>= λ d. some (record d { unread = rest })))
        × (message_bytes b codec alloc f ≡ some (got ++ replicate (n - length got) 0))
  unfolding after_reads message_bytes
  after_reads_early writes w f got n rest h le = (
    after_reads-Holds b codec alloc writes w f got n rest h le,
    rw (h.filled, message_bytes) refl,
  )

  -- A wake-up with nothing to read drops a new connection, and so does a first read that is
  -- shorter than the header; neither answers or changes the shared state.
  short_first_read :
      (fd : ℕ) (reads : List Read) (writes : List Write) (addr : Text) (x : ℕ) (chunk : Text)
      (w : World b)
      → IsCodec codec
      → length (x ∷ chunk) < 4
      → ((done : Done b) × (data_event b codec alloc fd ev_read
              (failed eagain ∷ reads)
              writes
              (new_flow addr)
              w
            ≡ some done)
          × (done.gone ≡ true)
          × (done.world ≡ w)
          × (done.response ≡ none))
        × ((done : Done b) × (data_event b codec alloc fd ev_read
                (received (x ∷ chunk) ∷ [])
                writes
                (new_flow addr)
                w
              ≡ some done)
            × (done.gone ≡ true)
            × (done.world ≡ w)
            × (done.response ≡ none))
  unfolding data_event read_loop after_reads parse message_bytes receive
  short_first_read fd reads writes addr x chunk w laws short = (
    (
      record {
        flow = record (new_flow addr) { client_fd = some fd; payload = (codec.parse []).1 };
        gone = true;
        world = w;
        response = none;
        unread = reads;
      },
      ground (arith, laws.parse-nil),
      refl,
      refl,
      refl,
    ),
    (
      record {
        flow = record (new_flow addr) {
          client_fd = some fd;
          len_till_now = length (x ∷ chunk);
          payload = (codec.parse []).1;
        };
        gone = true;
        world = w;
        response = none;
        unread = [];
      },
      ground (arith, laws.parse-nil),
      refl,
      refl,
      refl,
    ),
  )
