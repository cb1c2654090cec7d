-- ===== src/Client/RoundTrip.antt =====
-- A request of the client, the server's callback and the result that the client stores:
-- client/src/Client.cpp with server/src/TcpFlow.cpp.
use remote_dict.Prelude.{
  ℕ, ◌+◌, ◌<◌, ◌≤◌, ◌≡◌, ◌≢◌, Bool, true, false, none, some, List, [], ◌∷◌, ◌++◌, map, length,
  u32_mod, arith, ◌∙◌, ap, pos, take, take_all, length-append,
}
use remote_dict.Text.{Text}
use remote_dict.BloomFilter.{BloomFilter}
use remote_dict.Payload.{Payload, Codec, IsCodec}
use remote_dict.TcpFlow.Buffer.{Flow, received, num_read_try}
use remote_dict.TcpFlow.Write.{Write, returned}
use remote_dict.TcpFlow.Requests.{World, handle_request}
use remote_dict.TcpFlow.Callback.{Done, data_event, ev_read}
use remote_dict.TcpFlow.Reassembly.{concat, NonEmpty}
use remote_dict.TcpFlow.Messages.{IsFresh, data_event-request}
use remote_dict.TcpFlow.Responses.{AllRetried, capacity, socket_write_data_small}
use remote_dict.Client.{
  MessageType, Message, Client, Exchange, build_request, request_type, frame, send_typed,
  store_result, max_response,
}
use remote_dict.Client.Framing.{frame-Delivery}
use remote_dict.Client.Served.{build_request-type}

-- Field number 0 is not a valid tag: the parser refuses it and stops there, and what it has read
-- before stays in the message.
pub record StopsAtZero (c : Codec) : Type 0 where
  pub parse-padded :
      (p : Payload) → p.requesttype ≢ none → (c.parse (c.serialize p ++ (0 ∷ []))).1 ≡ p

module _ (codec : Codec) where
  pub take-padded :
      (text : Text)
      → length text < max_response
      → take max_response (text ++ (0 ∷ [])) ≡ text ++ (0 ∷ [])
  take-padded text fits =
      take_all (text ++ (0 ∷ [])) max_response (ground (arith, length-append text (0 ∷ [])))

  -- A response that fits the client's buffer, padded as the server sends it.
  send_typed-padded :
      (type : MessageType) (m : Message) (p q : Payload) (x : Exchange) (c : Client) (n : ℕ)
      → StopsAtZero codec
      → build_request type m ≡ some p
      → q.requesttype ≢ none
      → length (codec.serialize q) < max_response
      → x.written ≡ some n
      → x.response ≡ some (codec.serialize q ++ (0 ∷ []))
      → (c' : Client) × (send_typed codec type m x c ≡ (some (frame codec p), pos n, c'))
        × (c'.results ≡ c.results ++ (record { payload = q; timestamp = x.timestamp } ∷ []))
  unfolding send_typed
  send_typed-padded type m p q x c n stops built typed fits wrote read = (
    store_result codec (take max_response (codec.serialize q ++ (0 ∷ []))) x c,
    ground arith,
    simp (take-padded (codec.serialize q) fits, stops.parse-padded q typed),
  )

  -- The frame of a request that the client builds, shorter than 2 ^ 32 bytes and cut into a first
  -- read that goes past the header and less than 50 further reads with bytes in each, comes in on
  -- a fresh connection of a server that can allocate and whose handler answers it with a type and
  -- with less than 80 bytes. If the socket takes the whole response, retried errors aside, and the
  -- client reads it in one piece, then the client wrote that frame, the server's state is the
  -- handler's, and the client adds to its results the handler's answer, with the time of the
  -- exchange.
  pub round_trip :
      (b : BloomFilter) (alloc : ℕ → Bool) (type : MessageType) (m : Message) (p q : Payload)
      (first : Text) (chunks : List Text) (fd : ℕ) (writes : List Write) (f : Flow) (w w' : World b)
      (x : Exchange) (c : Client) (n : ℕ)
      → IsCodec codec
      → StopsAtZero codec
      → ((k : ℕ) → alloc k ≡ true)
      → build_request type m ≡ some p
      → length (codec.serialize p) + 4 < u32_mod
      → first ++ concat chunks ≡ frame codec p
      → 4 < length first
      → NonEmpty chunks
      → length chunks < num_read_try
      → IsFresh f
      → handle_request b (request_type type) p w ≡ some (q, w')
      → q.requesttype ≢ none
      → length (codec.serialize q) < max_response
      → AllRetried writes
      → length (codec.serialize q) + 1 ≤ capacity writes
      → x.written ≡ some n
      → x.response ≡ some (codec.serialize q ++ (0 ∷ []))
      → ((done : Done b) × (data_event b codec alloc fd ev_read
              (map received (first ∷ chunks))
              writes
              f
              w
            ≡ some done)
          × (done.gone ≡ false)
          × (done.world ≡ w')
          × (done.response
              ≡ some (
                  returned
                    (some (pos (length (codec.serialize q ++ (0 ∷ [])))))
                    (codec.serialize q ++ (0 ∷ [])))))
        × ((c' : Client) × (send_typed codec type m x c ≡ (some (frame codec p), pos n, c'))
            × (c'.results ≡ c.results ++ (record { payload = q; timestamp = x.timestamp } ∷ [])))
  round_trip b alloc type m p q first chunks fd writes f w w' x c n laws stops room built small cut
        past full few fresh answer typed fits retried takes wrote read =
      let (done, runs, stays, state, _, sent, _) =
        data_event-request b codec alloc fd (map received (first ∷ chunks)) writes f p q w w'
          (request_type type) laws fresh
          (frame-Delivery codec p first chunks (omega arith) cut past full few) small (room _)
          (build_request-type type m p built) answer (room _) in
      let whole : length (codec.serialize q ++ (0 ∷ [])) ≤ capacity writes =
        omega (arith, length-append (codec.serialize q) (0 ∷ [])) in
      (
        (
          done,
          runs,
          stays,
          state,
          sent
              ∙ ap some (
                  socket_write_data_small writes (codec.serialize q ++ (0 ∷ [])) retried whole
                    (omega (arith, length-append (codec.serialize q) (0 ∷ [])))),
        ),
        send_typed-padded type m p q x c n stops built typed fits wrote read,
      )
