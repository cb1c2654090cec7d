-- ===== src/System/Answers.antt =====
-- What the threads of the client meet at the server, request by request: `Client::sendData`
-- (client/src/Client.cpp) and `TcpFlow::data` (server/src/TcpFlow.cpp) beside the ideal server.
use mathlib.Core.Option.{none-ne-some}
use remote_dict.Prelude.{
  ℕ, ◌+◌, ◌≤◌, ◌<◌, ◌≡◌, ◌≢◌, refl, sym, ap, ◌∙◌, Bool, true, pos, Option, none, some, List, [],
  ◌∷◌, ◌++◌, map, length, take, drop, u32_mod, take-append-drop, append-nil,
}
use remote_dict.Text.{Text}
use remote_dict.BloomFilter.{BloomFilter, NoFalseNegatives}
use remote_dict.Payload.{Payload, Codec, IsCodec, empty}
use remote_dict.TcpFlow.Buffer.{received, new_flow, num_read_try}
use remote_dict.TcpFlow.Write.{returned}
use remote_dict.TcpFlow.Requests.{World, handle_request}
use remote_dict.TcpFlow.Callback.{Done, data_event, ev_read}
use remote_dict.TcpFlow.Reassembly.{concat, NonEmpty}
use remote_dict.TcpFlow.Responses.{AllRetried, capacity}
use remote_dict.TcpFlow.Ideal.{Ideal, reply, reply-type, Represents, handle_request-reply}
use remote_dict.Client.{
  MessageType, Message, ResultData, Connect, Exchange, new_client, build_request, request_type,
  frame, max_response,
}
use remote_dict.Client.Sending.{Answers, outcome}
use remote_dict.Client.Served.{build_request-type}
use remote_dict.Client.RoundTrip.{StopsAtZero, round_trip, take-padded}
use remote_dict.System.{Round, Turn, split, connection, exchange, serve}

-- The ideal server's answer to a message, which a message that makes no request does not get.
unfoldable pub reply_to_request : MessageType → Option Payload → Ideal → Payload × Ideal
reply_to_request type none s = (empty, s)
reply_to_request type (some p) s = reply (request_type type) p s

unfoldable pub reply_to : Option MessageType → Message → Ideal → Payload × Ideal
unfolding reply_to_request
reply_to none m s = (empty, s)
reply_to (some type) m s = reply_to_request type (build_request type m) s

abbrev pub answer_to : Message → Ideal → Payload × Ideal
answer_to m s = reply_to m.type m s

reply_to-built :
    (type : MessageType) (m : Message) (p : Payload) (s : Ideal)
    → m.type ≡ some type
    → build_request type m ≡ some p
    → answer_to m s ≡ reply (request_type type) p s
unfolding reply_to
reply_to-built type m p s typed built =
    ap (λ o. reply_to o m s) typed ∙ ap (λ o. reply_to_request type o s) built

-- The result of a turn, and the results of all of them with their threads.
unfoldable pub result_of : Turn → Ideal → ResultData
result_of t s = record { payload = (answer_to t.message s).0; timestamp = t.round.timestamp }

unfoldable pub answers : List Turn → Ideal → List (ℕ × ResultData)
unfolding result_of
answers [] s = []
answers (t ∷ ts) s = (t.thread, result_of t s) ∷ answers ts (answer_to t.message s).1

-- The ideal server's state after the turns.
unfoldable pub final : List Turn → Ideal → Ideal
final [] s = s
final (t ∷ ts) s = final ts (answer_to t.message s).1

-- A first read that goes past the header, and fewer than 50 more with bytes in each.
abbrev pub IsCut : List Text → Type 0
IsCut [] = ⊥
IsCut (first ∷ rest) = (4 < length first) × NonEmpty rest × (length rest < num_read_try)

concat-split : (ns : List ℕ) (text : Text) → concat (split ns text) ≡ text
unfolding concat split
concat-split [] text = append-nil text
concat-split (n ∷ ns) text =
    ap (◌++◌ (take n text)) (concat-split ns (drop n text)) ∙ take-append-drop n text

-- An answer to a request of a client has a type.
reply-typed :
    (type : MessageType) (m : Message) (p : Payload) (s : Ideal)
    → build_request type m ≡ some p
    → (reply (request_type type) p s).0.requesttype ≢ none
reply-typed type m p s built e =
    none-ne-some (request_type type)
      (sym e ∙ (reply-type (request_type type) p s ∙ build_request-type type m p built))

module _ (codec : Codec) where
  -- A turn whose message makes a request, with a frame shorter than 2 ^ 32 bytes, an answer
  -- shorter than 80 bytes, and a network that carries both.
  pub record Carried (t : Turn) (s : Ideal) : Type 0 where
    pub type : MessageType
    pub request : Payload
    pub typed : t.message.type ≡ some type
    pub built : build_request type t.message ≡ some request
    pub small : length (codec.serialize request) + 4 < u32_mod
    pub cut : IsCut (split t.round.cuts (frame codec request))
    pub short : length (codec.serialize (answer_to t.message s).0) < max_response
    pub retried : AllRetried t.round.writes
    pub taken : length (codec.serialize (answer_to t.message s).0) + 1 ≤ capacity t.round.writes

  abbrev pub AllCarried : List Turn → Ideal → Type 0
  AllCarried [] s = Unit
  AllCarried (t ∷ ts) s = Carried t s × AllCarried ts (answer_to t.message s).1

  -- The calls of the turns give what the ideal server answers.
  abbrev pub Meets : List Turn → Ideal → List (ℕ × (Connect × Exchange)) → Type 0
  Meets [] s [] = Unit
  Meets (t ∷ ts) s ((i, e) ∷ es) =
      (i ≡ t.thread)
      × Answers e
      × (outcome codec e ≡ result_of t s ∷ [])
      × Meets ts (answer_to t.message s).1 es
  Meets _ s _ = ⊥

module _ (b : BloomFilter) (laws : NoFalseNegatives b) (codec : Codec) (is_codec : IsCodec codec)
    (stops : StopsAtZero codec) (alloc : ℕ → Bool) (room : (n : ℕ) → alloc n ≡ true) where
  -- The server's callback for a request that comes in these pieces.
  delivered :
      (type : MessageType) (m : Message) (p q : Payload) (pieces : List Text) (r : Round)
      (w w' : World b)
      → build_request type m ≡ some p
      → length (codec.serialize p) + 4 < u32_mod
      → concat pieces ≡ frame codec p
      → IsCut pieces
      → handle_request b (request_type type) p w ≡ some (q, w')
      → q.requesttype ≢ none
      → length (codec.serialize q) < max_response
      → AllRetried r.writes
      → length (codec.serialize q) + 1 ≤ capacity r.writes
      → (done : Done b) × (data_event b codec alloc r.fd ev_read
            (map received pieces)
            r.writes
            (new_flow r.addr)
            w
          ≡ some done)
        × (done.world ≡ w')
        × (done.response
            ≡ some (
                returned
                  (some (pos (length (codec.serialize q ++ (0 ∷ [])))))
                  (codec.serialize q ++ (0 ∷ []))))
  unfolding concat
  delivered type m p q [] r w w' built small whole cut answer typed fits retried takes = absurd cut
  delivered type m p q (first ∷ rest) r w w' built small whole cut answer typed fits retried takes =
      let x : Exchange = record {
        written = some 0;
        response = some (codec.serialize q ++ (0 ∷ []));
        timestamp = 0;
        duration = 0;
      } in
      let ((done, runs, _, state, out), _) =
        round_trip codec b alloc type m p q first rest r.fd r.writes (new_flow r.addr) w w' x
          (new_client 0 []) 0 is_codec stops room built small whole cut.0 cut.1 cut.2
          (record { null = refl; nothing = refl }) answer typed fits retried takes refl refl in
      (done, runs, state, out)

  -- A turn at a server that represents the ideal one.
  exchange-answer :
      (t : Turn) (s : Ideal) (w : World b) (c : Carried codec t s)
      → Represents b w s
      → (e : Connect × Exchange) × (w' : World b) × (exchange b codec alloc c.type t.message t.round
            w
          ≡ some (e, w'))
        × Answers e
        × (outcome codec e ≡ result_of t s ∷ [])
        × Represents b w' (answer_to t.message s).1
  unfolding exchange
  exchange-answer t s w c r =
      let q : Payload = (reply (request_type c.type) c.request s).0 in
      let same : answer_to t.message s ≡ reply (request_type c.type) c.request s =
        reply_to-built c.type t.message c.request s c.typed c.built in
      let (w', handled, r') = handle_request-reply b laws (request_type c.type) c.request w s r in
      let (done, runs, state, out) =
        delivered c.type t.message c.request q (split t.round.cuts (frame codec c.request)) t.round
          w w' c.built c.small (concat-split t.round.cuts (frame codec c.request)) c.cut handled
          (reply-typed c.type t.message c.request s c.built) (rw same at c.short) c.retried
          (rw same at c.taken) in
      let x : Connect × Exchange = (
        connection t.round,
        record {
          written = some (length (frame codec c.request));
          response = some (codec.serialize q ++ (0 ∷ []));
          timestamp = t.round.timestamp;
          duration = t.round.duration;
        },
      ) in
      (
        x,
        w',
        rw (c.built, runs, out, state) refl,
        unfold connection in
            (refl, (t.round.socket, refl), (_, refl), (codec.serialize q ++ (0 ∷ []), refl)),
        unfold outcome result_of in
            rw
              (
                take-padded codec (codec.serialize q) (rw same at c.short),
                stops.parse-padded q (reply-typed c.type t.message c.request s c.built),
                same,
              )
              refl,
        rw same r',
      )

  -- All turns are answered as the ideal server answers them, in the order in which they are served.
  pub serve-answers :
      (ts : List Turn) (s : Ideal) (w : World b)
      → AllCarried codec ts s
      → Represents b w s
      → (calls : List (ℕ × (Connect × Exchange))) × (w' : World b) × (serve b codec alloc ts w
          ≡ some (calls, w'))
        × Meets codec ts s calls
        × Represents b w' (final ts s)
  unfolding serve final
  serve-answers [] s w carried r = ([], w, refl, tt, r)
  serve-answers (t ∷ ts) s w carried r =
      let (e, w₁, served, answers_it, found, r₁) = exchange-answer t s w carried.0 r in
      let (calls, w₂, rest, meets, r₂) =
        serve-answers ts (answer_to t.message s).1 w₁ carried.1 r₁ in
      (
        (t.thread, e) ∷ calls,
        w₂,
        simp (carried.0.typed, served, rest),
        (refl, answers_it, found, meets),
        r₂,
      )
