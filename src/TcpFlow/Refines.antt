-- ===== src/TcpFlow/Refines.antt =====
-- The callback `TcpFlow::data` (server/src/TcpFlow.cpp), on whatever the socket gives, against the
-- ideal server.
use mathlib.Core.Option.{some-injective}
use remote_dict.Prelude.{
  ℕ, ◌+◌, ◌%◌, ◌≡◌, refl, sym, ap, Bool, false, Option, none, some, List, [], ◌∷◌, ◌++◌, ◌>>=◌,
  >>=-eq-some, length, Option-cases, Bool-cases, ◌⊎◌, inl, inr, leb, subst, ◌==◌, u32_mod,
}
use remote_dict.Text.{Text}
use remote_dict.BloomFilter.{BloomFilter, NoFalseNegatives}
use remote_dict.Payload.{Payload, RequestType, Codec}
use remote_dict.TcpFlow.Buffer.{
  Flow, Read, Loop, deleted, finished, read_loop, num_read_try, calloc,
}
use remote_dict.TcpFlow.Write.{Write, Written, socket_write_data}
use remote_dict.TcpFlow.Requests.{World, handle_request}
use remote_dict.TcpFlow.Callback.{
  Done, data_event, after_reads, parse, message_bytes, send_response, ev_read,
}
use remote_dict.TcpFlow.Ideal.{Ideal, reply, Represents, handle_request-reply}

module _ (b : BloomFilter) (codec : Codec) where
  -- A request that the parser has read from some bytes was handled as the ideal server handles it,
  -- and its answer, serialized, and a zero byte were given to the socket.
  pub record Handled (s : Ideal) (writes : List Write) (d : Done b) : Type 0 where
    pub type : RequestType
    pub text : Text
    pub typed : (codec.parse text).1.requesttype ≡ some type
    pub state : Represents b d.world (reply type (codec.parse text).1 s).1
    pub payload : d.flow.payload ≡ (reply type (codec.parse text).1 s).0
    pub written :
        d.response
        ≡ some (
            socket_write_data writes
              (codec.serialize (reply type (codec.parse text).1 s).0 ++ (0 ∷ [])))
    pub stays : d.gone ≡ false

  -- Nothing was handled: no answer, and the state is as it was.
  pub record Idle (w : World b) (d : Done b) : Type 0 where
    pub unchanged : d.world ≡ w
    pub silent : d.response ≡ none

module _ (b : BloomFilter) (laws : NoFalseNegatives b) (codec : Codec) (alloc : ℕ → Bool) where
  -- A callback that meets no undefined behaviour handles one request or none.
  abbrev Refines : World b → Ideal → List Write → Option (Done b) → Type 0
  Refines w s writes none = Unit
  Refines w s writes (some d) = Idle b codec w d ⊎ Handled b codec s writes d

  send_response-sent :
      (writes : List Write) (q : Payload) (out : Written)
      → send_response b codec alloc writes q ≡ some out
      → out ≡ socket_write_data writes (codec.serialize q ++ (0 ∷ []))
  unfolding send_response
  send_response-sent writes q out e =
      let (_, _, written) =
        >>=-eq-some (calloc alloc ((length (codec.serialize q) + 1) % u32_mod)) _ e in
      some-injective _ _ (sym written)

  handled-Refines :
      (type : RequestType) (text : Text) (f : Flow) (w : World b) (s : Ideal) (writes : List Write)
      → (codec.parse text).1.requesttype ≡ some type
      → Represents b w s
      → Refines w s writes (do
        r ← handle_request b type (codec.parse text).1 w
        sent ← send_response b codec alloc writes r.0
        some (record {
          flow = record f { payload = r.0 };
          gone = false;
          world = r.1;
          response = some sent;
          unread = [];
        }))
  handled-Refines type text f w s writes typed r =
      let (w', e, r') = handle_request-reply b laws type (codec.parse text).1 w s r in
      let q : Payload = (reply type (codec.parse text).1 s).0 in
      rw e (elim (Option-cases (send_response b codec alloc writes q)) [
        | inl e' ↦ rw e' tt
        | inr (sent, e') ↦ rw e' (
            inr (record {
              type = type;
              text = text;
              typed = typed;
              state = r';
              payload = refl;
              written = ap some (send_response-sent writes q sent e');
              stays = refl;
            }))
      ])

  parse-Refines :
      (writes : List Write) (f : Flow) (w : World b) (s : Ideal)
      → Represents b w s
      → Refines w s writes (parse b codec alloc writes f w)
  unfolding parse
  parse-Refines writes f w s r = elim (Option-cases (message_bytes b codec alloc f)) [
    | inl e ↦ rw e tt
    | inr (text, e) ↦ rw e (elim (Option-cases (codec.parse text).1.requesttype) [
      | inl e' ↦ rw e' (inl (record { unchanged = refl; silent = refl }))
      | inr (type, e') ↦ rw e' (handled-Refines type text f w s writes e' r)
    ])
  ]

  unread-Refines :
      (w : World b) (s : Ideal) (writes : List Write) (rest : List Read) (o : Option (Done b))
      → Refines w s writes o
      → Refines w s writes (do d ← o; some (record d { unread = rest }))
  unread-Refines w s writes rest none h = tt
  unread-Refines w s writes rest (some d) (inl h) =
      inl (record { unchanged = h.unchanged; silent = h.silent })
  unread-Refines w s writes rest (some d) (inr h) = inr (record {
    type = h.type;
    text = h.text;
    typed = h.typed;
    state = h.state;
    payload = h.payload;
    written = h.written;
    stays = h.stays;
  })

  after_reads-Refines :
      (writes : List Write) (w : World b) (s : Ideal) (l : Loop)
      → Represents b w s
      → Refines w s writes (after_reads b codec alloc writes w l)
  unfolding after_reads
  after_reads-Refines writes w s (deleted f) r = inl (record { unchanged = refl; silent = refl })
  after_reads-Refines writes w s (finished f rest) r =
      elim (Bool-cases (leb f.payload_len f.len_till_now)) [
        | inl e ↦ rw e (
            unread-Refines w s writes rest (parse b codec alloc writes f w)
              (parse-Refines writes f w s r))
        | inr e ↦ rw e (inl (record { unchanged = refl; silent = refl }))
      ]

  event-Refines :
      (fd ev : ℕ) (reads : List Read) (writes : List Write) (f : Flow) (w : World b) (s : Ideal)
      → Represents b w s
      → Refines w s writes (data_event b codec alloc fd ev reads writes f w)
  unfolding data_event
  event-Refines fd ev reads writes f w s r = elim (Bool-cases (ev == ev_read)) [
    | inr e ↦ rw e (inl (record { unchanged = refl; silent = refl }))
    | inl e ↦
        rw e
          (elim (Option-cases
            (read_loop alloc num_read_try reads (record f { client_fd = some fd }))) [
              | inl e' ↦ rw e' tt
              | inr (l, e') ↦ rw e' (after_reads-Refines writes w s l r)
            ])
  ]

  -- Whatever event, bytes and errors a connection meets, on whatever flow: if the callback meets
  -- no undefined behaviour and the server's state represents an ideal one without the filter, then
  -- either nothing is written and the state is as it was, or one request that the parser has read
  -- is handled as the ideal server handles it, and what is written is the ideal server's answer,
  -- serialized, and one zero byte.
  pub data_event-refines :
      (fd ev : ℕ) (reads : List Read) (writes : List Write) (f : Flow) (w : World b) (s : Ideal)
      (d : Done b)
      → Represents b w s
      → data_event b codec alloc fd ev reads writes f w ≡ some d
      → Idle b codec w d ⊎ Handled b codec s writes d
  data_event-refines fd ev reads writes f w s d r e =
      subst (Refines w s writes) e (event-Refines fd ev reads writes f w s r)
