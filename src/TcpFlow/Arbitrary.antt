-- ===== src/TcpFlow/Arbitrary.antt =====
-- The callback `TcpFlow::data` (server/src/TcpFlow.cpp) on whatever the socket gives.
use remote_dict.Prelude.{
  ℕ, ◌≡◌, Bool, false, Option, none, some, List, [], ◌>>=◌, Option-cases, Bool-cases, inl, inr, leb,
  subst, ◌==◌,
}
use remote_dict.BloomFilter.{BloomFilter, NoFalseNegatives}
use remote_dict.Payload.{Payload, RequestType, Codec}
use remote_dict.TcpFlow.Buffer.{Flow, Read, Loop, deleted, finished, read_loop, num_read_try}
use remote_dict.TcpFlow.Write.{Write}
use remote_dict.TcpFlow.Requests.{World, handle_request}
use remote_dict.TcpFlow.Callback.{
  Done, data_event, after_reads, parse, message_bytes, send_response, ev_read,
}
use remote_dict.TcpFlow.Semantics.{IsSound, handle_request-IsSound}

module _ (b : BloomFilter) (laws : NoFalseNegatives b) (codec : Codec) (alloc : ℕ → Bool) where
  -- A callback whose result is known ends in a sound state.
  abbrev Sound : Option (Done b) → Type 0
  Sound none = Unit
  Sound (some d) = IsSound b laws d.world

  handled-Sound :
      (type : RequestType) (p : Payload) (f : Flow) (w : World b) (writes : List Write)
      → IsSound b laws w
      → Sound (do
        r ← handle_request b type p w
        sent ← send_response b codec alloc writes r.0
        some (record {
          flow = record f { payload = r.0 };
          gone = false;
          world = r.1;
          response = some sent;
          unread = [];
        }))
  handled-Sound type p f w writes s =
      let (q, w', e, s') = handle_request-IsSound b laws type p w s in
      rw e (elim (Option-cases (send_response b codec alloc writes q)) [
        | inl e' ↦ rw e' tt
        | inr (sent, e') ↦ rw e' s'
      ])

  parse-Sound :
      (writes : List Write) (f : Flow) (w : World b)
      → IsSound b laws w
      → Sound (parse b codec alloc writes f w)
  unfolding parse
  parse-Sound writes f w s = elim (Option-cases (message_bytes b codec alloc f)) [
    | inl e ↦ rw e tt
    | inr (text, e) ↦ rw e (elim (Option-cases (codec.parse text).1.requesttype) [
      | inl e' ↦ rw e' s
      | inr (type, e') ↦ rw e' (handled-Sound type (codec.parse text).1 f w writes s)
    ])
  ]

  unread-Sound :
      (rest : List Read) (o : Option (Done b))
      → Sound o
      → Sound (do d ← o; some (record d { unread = rest }))
  unread-Sound rest none h = tt
  unread-Sound rest (some d) h = h

  after_reads-Sound :
      (writes : List Write) (w : World b) (l : Loop)
      → IsSound b laws w
      → Sound (after_reads b codec alloc writes w l)
  unfolding after_reads
  after_reads-Sound writes w (deleted f) s = s
  after_reads-Sound writes w (finished f rest) s =
      elim (Bool-cases (leb f.payload_len f.len_till_now)) [
        | inl e ↦
            rw e (unread-Sound rest (parse b codec alloc writes f w) (parse-Sound writes f w s))
        | inr e ↦ rw e s
      ]

  data_event-Sound :
      (fd ev : ℕ) (reads : List Read) (writes : List Write) (f : Flow) (w : World b)
      → IsSound b laws w
      → Sound (data_event b codec alloc fd ev reads writes f w)
  unfolding data_event
  data_event-Sound fd ev reads writes f w s = elim (Bool-cases (ev == ev_read)) [
    | inr e ↦ rw e s
    | inl e ↦
        rw e
          (elim (Option-cases
            (read_loop alloc num_read_try reads (record f { client_fd = some fd }))) [
              | inl e' ↦ rw e' tt
              | inr (l, e') ↦ rw e' (after_reads-Sound writes w l s)
            ])
  ]

  -- Whatever event, bytes and errors a connection meets, on whatever flow: if the callback of a
  -- sound state meets no undefined behaviour, it leaves a sound state.
  pub data_event-IsSound :
      (fd ev : ℕ) (reads : List Read) (writes : List Write) (f : Flow) (w : World b) (d : Done b)
      → IsSound b laws w
      → data_event b codec alloc fd ev reads writes f w ≡ some d
      → IsSound b laws d.world
  data_event-IsSound fd ev reads writes f w d s e =
      subst Sound e (data_event-Sound fd ev reads writes f w s)
