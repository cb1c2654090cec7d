-- ===== src/TcpFlow/Callback.antt =====
-- `TcpFlow::parse`, `TcpFlow::sendResponse` and the callback `TcpFlow::data`
-- (server/src/TcpFlow.cpp).
use remote_dict.Prelude.{
  ℕ, ◌+◌, ◌%◌, Bool, true, false, not, Option, none, some, List, [], ◌∷◌, ◌++◌, length, leb, ◌==◌,
  if◌then◌else◌, ◌>>=◌, u32_mod,
}
use remote_dict.Text.{Text}
use remote_dict.BloomFilter.{BloomFilter}
use remote_dict.Payload.{Payload, Codec}
use remote_dict.TcpFlow.Buffer.{
  Flow, Read, Loop, deleted, finished, read_loop, num_read_try, calloc,
}
use remote_dict.TcpFlow.Write.{Write, Written, socket_write_data}
use remote_dict.TcpFlow.Requests.{World, handle_request}

-- EV_READ of libevent.
abbrev pub ev_read : ℕ
ev_read = 2

-- What a call has done: the flow (which the delete callback has destroyed if `gone`), the shared
-- state, the response that was written if there was one, and the reads that are left.
pub record Done (b : BloomFilter) : Type 0 where
  pub flow : Flow
  pub gone : Bool
  pub world : World b
  pub response : Option Written
  pub unread : List Read

module _ (b : BloomFilter) (codec : Codec) (alloc : ℕ → Bool) where
  -- The buffer has ByteSizeLong() + 1 bytes, zeroed, of which the message fills all but one.
  unfoldable pub send_response : List Write → Payload → Option Written
  send_response writes p =
      let message = codec.serialize p in
      do
        room ← calloc alloc ((length message + 1) % u32_mod)
        some (socket_write_data writes (message ++ (0 ∷ [])))

  -- ParseFromArray reads `m_payloadLen` bytes at `m_data`; null is read only if there are none.
  unfoldable pub message_bytes : Flow → Option Text
  message_bytes f = elim f.buffer [
    | some d ↦ some d
    | none ↦ if f.payload_len == 0 then some [] else none
  ]

  unfoldable pub parse : List Write → Flow → World b → Option (Done b)
  parse writes f w = do
    text ← message_bytes f
    let f' = record f { payload = (codec.parse text).1 }
    elim f'.payload.requesttype [
      | some type ↦ do
        r ← handle_request b type f'.payload w
        sent ← send_response writes r.0
        some (record {
          flow = record f { payload = r.0 };
          gone = false;
          world = r.1;
          response = some sent;
          unread = [];
        })
      | none ↦ some (record { flow = f'; gone = true; world = w; response = none; unread = [] })
    ]

  -- The end of `data`, behind the read loop.
  unfoldable pub after_reads : List Write → World b → Loop → Option (Done b)
  after_reads writes w (deleted f) =
      some (record { flow = f; gone = true; world = w; response = none; unread = [] })
  after_reads writes w (finished f rest) =
      if leb f.payload_len f.len_till_now
      then (do d ← parse writes f w; some (record d { unread = rest }))
      else some (record { flow = f; gone = false; world = w; response = none; unread = rest })

  -- The callback: `reads` are what the socket gives, `writes` what it takes.
  unfoldable pub data_event : ℕ → ℕ → List Read → List Write → Flow → World b → Option (Done b)
  data_event fd ev reads writes f w =
      if not (ev == ev_read)
      then some (record { flow = f; gone = false; world = w; response = none; unread = reads })
      else do
        l ← read_loop alloc num_read_try reads (record f { client_fd = some fd })
        after_reads writes w l
