-- ===== src/TcpFlow/Faults/Second.antt =====
-- A second request on a connection that has answered one: `TcpFlow::data`
-- (server/src/TcpFlow.cpp) does not set its buffer back.
use remote_dict.Prelude.{
  ℕ, ◌+◌, ◌%◌, ◌<◌, ◌≡◌, refl, sym, ◌∙◌, subst, Bool, true, false, none, some, List, [], ◌∷◌, ◌++◌,
  length, arith, ◌>>=◌, u32_mod, Option, Option-cases, Bool-cases, inl, inr, leb,
}
use remote_dict.Text.{Text}
use remote_dict.BloomFilter.{BloomFilter}
use remote_dict.Payload.{Payload, RequestType, Codec, IsCodec}
use remote_dict.TcpFlow.Buffer.{Flow, Read, received, finished, read_loop, receive, num_read_try}
use remote_dict.TcpFlow.Write.{Write, socket_write_data}
use remote_dict.TcpFlow.Requests.{World, handle_request}
use remote_dict.TcpFlow.Callback.{
  Done, ev_read, message_bytes, parse, send_response, after_reads, data_event,
}
use remote_dict.TcpFlow.Reassembly.{Holds}
use remote_dict.TcpFlow.Messages.{IsFresh, Delivery, read_loop-Delivery, data_event-request}
use remote_dict.TcpFlow.Faults.{receive-overflow}

module _ (b : BloomFilter) (codec : Codec) (alloc : ℕ → Bool) where
  -- The flow of a result has the bytes and the counts of the one before.
  abbrev Kept : Flow → Option (Done b) → Type 0
  Kept f none = Unit
  Kept f (some d) =
      (d.flow.buffer ≡ f.buffer)
      × (d.flow.currlen ≡ f.currlen)
      × (d.flow.payload_len ≡ f.payload_len)
      × (d.flow.len_till_now ≡ f.len_till_now)

  Kept-Holds :
      (f : Flow) (d : Done b) (got : Text) (n : ℕ)
      → Kept f (some d)
      → Holds f got n
      → Holds d.flow got n
  Kept-Holds f d got n (buffer, offset, announced, counted) h = record {
    filled = buffer ∙ h.filled;
    offset = offset ∙ h.offset;
    announced = announced ∙ h.announced;
    counted = counted ∙ h.counted;
  }

  handled-Kept :
      (type : RequestType) (p : Payload) (f : Flow) (w : World b) (writes : List Write)
      → Kept f (do
        r ← handle_request b type p w
        sent ← send_response b codec alloc writes r.0
        some (record {
          flow = record f { payload = r.0 };
          gone = false;
          world = r.1;
          response = some sent;
          unread = [];
        }))
  handled-Kept type p f w writes = elim (Option-cases (handle_request b type p w)) [
    | inl e ↦ rw e tt
    | inr (r, e) ↦ rw e (elim (Option-cases (send_response b codec alloc writes r.0)) [
      | inl e' ↦ rw e' tt
      | inr (sent, e') ↦ rw e' (refl, refl, refl, refl)
    ])
  ]

  parse-Kept :
      (writes : List Write) (f : Flow) (w : World b) → Kept f (parse b codec alloc writes f w)
  unfolding parse
  parse-Kept writes f w = elim (Option-cases (message_bytes b codec alloc f)) [
    | inl e ↦ rw e tt
    | inr (text, e) ↦ rw e (elim (Option-cases (codec.parse text).1.requesttype) [
      | inl e' ↦ rw e' (refl, refl, refl, refl)
      | inr (type, e') ↦ rw e' (handled-Kept type (codec.parse text).1 f w writes)
    ])
  ]

  unread-Kept :
      (f : Flow) (rest : List Read) (o : Option (Done b))
      → Kept f o
      → Kept f (do d ← o; some (record d { unread = rest }))
  unread-Kept f rest none h = tt
  unread-Kept f rest (some d) h = h

  after_reads-Kept :
      (writes : List Write) (w : World b) (f : Flow) (rest : List Read)
      → Kept f (after_reads b codec alloc writes w (finished f rest))
  unfolding after_reads
  after_reads-Kept writes w f rest = elim (Bool-cases (leb f.payload_len f.len_till_now)) [
    | inl e ↦ rw e (unread-Kept f rest (parse b codec alloc writes f w) (parse-Kept writes f w))
    | inr e ↦ rw e (refl, refl, refl, refl)
  ]

  data_event-Kept :
      (fd : ℕ) (reads : List Read) (writes : List Write) (f f' : Flow) (w : World b) (d : Done b)
      → read_loop alloc num_read_try reads (record f { client_fd = some fd })
        ≡ some (finished f' [])
      → data_event b codec alloc fd ev_read reads writes f w ≡ some d
      → Kept f' (some d)
  unfolding data_event
  data_event-Kept fd reads writes f f' w d l e =
      let run : data_event b codec alloc fd ev_read reads writes f w
          ≡ after_reads b codec alloc writes w (finished f' []) =
        rw (l, data_event) refl in
      subst (Kept f') (sym run ∙ e) (after_reads-Kept writes w f' [])

  -- More bytes for a flow that has its whole message.
  data_event-past :
      (fd x : ℕ) (text : Text) (rest : List Read) (writes : List Write) (f : Flow) (got : Text)
      (w : World b)
      → Holds f got (length got)
      → data_event b codec alloc fd ev_read (received (x ∷ text) ∷ rest) writes f w ≡ none
  unfolding data_event read_loop
  data_event-past fd x text rest writes f got w h =
      let past : receive alloc (x ∷ text) (record f { client_fd = some fd }) ≡ none =
        receive-overflow alloc (record f { client_fd = some fd }) got (x ∷ text) (length got)
          (record {
            filled = h.filled;
            offset = h.offset;
            announced = h.announced;
            counted = h.counted;
          })
          (omega arith) (omega arith) in
      rw past refl

  -- A message with a request type, shorter than 2 ^ 32 - 4 bytes, comes in on a fresh connection
  -- split into reads in any way that a delivery allows, both buffers can be allocated and the
  -- handler gives an answer. Then the callback writes the serialized answer and one zero byte and
  -- keeps the connection, and the next callback that begins with a read of a byte or more is
  -- undefined behaviour: it writes past the allocation of the first message.
  pub second_request :
      (fd : ℕ) (reads : List Read) (writes : List Write) (f : Flow) (p q : Payload) (w w' : World b)
      (type : RequestType) (x : ℕ) (text : Text) (rest : List Read) (writes' : List Write)
      → IsCodec codec
      → IsFresh f
      → Delivery (codec.serialize p) reads
      → length (codec.serialize p) + 4 < u32_mod
      → alloc (length (codec.serialize p)) ≡ true
      → p.requesttype ≡ some type
      → handle_request b type p w ≡ some (q, w')
      → alloc ((length (codec.serialize q) + 1) % u32_mod) ≡ true
      → (done : Done b) × (data_event b codec alloc fd ev_read reads writes f w ≡ some done)
        × (done.gone ≡ false)
        × (done.response ≡ some (socket_write_data writes (codec.serialize q ++ (0 ∷ []))))
        × (data_event b codec alloc fd ev_read
              (received (x ∷ text) ∷ rest)
              writes'
              done.flow
              done.world
            ≡ none)
  second_request fd reads writes f p q w w' type x text rest writes' laws fresh v small room t e
        room' =
      let (f', l, h) =
        read_loop-Delivery alloc (record f { client_fd = some fd }) (codec.serialize p) reads
          (record { null = fresh.null; nothing = fresh.nothing }) v room small in
      let (done, runs, stays, _, _, sent, _) =
        data_event-request b codec alloc fd reads writes f p q w w' type laws fresh v small room t e
          room' in
      (
        done,
        runs,
        stays,
        sent,
        data_event-past fd x text rest writes' done.flow (codec.serialize p) done.world (
            Kept-Holds f' done (codec.serialize p) _
              (data_event-Kept fd reads writes f f' w done l runs) h),
      )
