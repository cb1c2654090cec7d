-- ===== src/Examples/Sessions.antt =====
-- The theorems of several wake-ups and of a whole exchange, at one request.
use remote_dict.Prelude.{none, ◌≡◌, refl, false, some, [], ◌∷◌, ◌++◌, map, arith, pos, length}
use remote_dict.Text.{bytes}
use remote_dict.Examples.{
  exact, roomy, plain_codec, plain-IsCodec, plain-StopsAtZero, serialize_payload, write_payload,
  write_text, write_stats, type_code,
}
use remote_dict.Examples.Flows.{
  world, world_after, get_key, get_answer, get_key-handled, reads, get_key-Delivery,
}
use remote_dict.Examples.Requests.{get_message, first, rest}
use remote_dict.TcpFlow.Buffer.{received, new_flow, le32}
use remote_dict.TcpFlow.Write.{accepts, returned, socket_write_data}
use remote_dict.TcpFlow.Callback.{Done, data_event, ev_read}
use remote_dict.TcpFlow.Reassembly.{concat}
use remote_dict.TcpFlow.Messages.Sequences.{joined, data_events, data_events-request}
use remote_dict.TcpFlow.Faults.Second.{second_request}
use remote_dict.TcpFlow.Responses.{capacity}
use remote_dict.Payload.{RequestType}
use remote_dict.Client.{
  MessageType, Client, new_client, Exchange, frame, size_bytes, build_request, request_type,
  send_typed,
}
use remote_dict.Client.RoundTrip.{round_trip}

data_events-request_example :
    (done : Done exact) × (data_events exact plain_codec roomy 7
        ((received first ∷ []) ∷ map (map received) (rest ∷ []))
        (accepts 100 ∷ [])
        (new_flow (bytes "a"))
        world
      ≡ some (
        done,
        socket_write_data (accepts 100 ∷ []) (plain_codec.serialize get_answer ++ (0 ∷ [])) ∷ [],
      ))
    × (done.gone ≡ false)
    × (done.world ≡ world_after)
    × (done.flow.payload ≡ get_answer)
    × (done.unread ≡ [])
unfolding serialize_payload write_payload write_text write_stats type_code concat le32 joined
data_events-request_example =
    data_events-request exact plain_codec roomy 7 (accepts 100 ∷ []) (new_flow (bytes "a")) get_key
      get_answer world world_after RequestType.get 8 0 0 0 0 (4 ∷ []) [] (rest ∷ []) plain-IsCodec
      (record { null = refl; nothing = refl }) refl
      (tt, omega arith, omega arith, ((omega arith, tt), omega arith, refl)) (omega arith) refl
      (omega arith) refl refl get_key-handled refl

abbrev answered : Exchange
answered = record {
  written = some 12;
  response = some (plain_codec.serialize get_answer ++ (0 ∷ []));
  timestamp = 9;
  duration = 30;
}

round_trip_example :
    ((done : Done exact) × (data_event exact plain_codec roomy 7 ev_read
          (map received (first ∷ rest))
          (accepts 100 ∷ [])
          (new_flow (bytes "a"))
          world
        ≡ some done)
      × (done.gone ≡ false)
      × (done.world ≡ world_after)
      × (done.response
          ≡ some (
              returned
                (some (pos (length (plain_codec.serialize get_answer ++ (0 ∷ [])))))
                (plain_codec.serialize get_answer ++ (0 ∷ [])))))
    × ((c : Client) × (send_typed plain_codec MessageType.get get_message answered
            (new_client 17 [])
          ≡ (some (frame plain_codec get_key), pos 12, c))
        × (c.results ≡ record { payload = get_answer; timestamp = 9 } ∷ []))
unfolding serialize_payload write_payload write_text write_stats type_code concat frame size_bytes
    build_request request_type capacity
round_trip_example =
    round_trip plain_codec exact roomy MessageType.get get_message get_key get_answer first rest 7
      (accepts 100 ∷ []) (new_flow (bytes "a")) world world_after answered (new_client 17 []) 12
      plain-IsCodec plain-StopsAtZero (λ n. refl) refl (omega arith) refl (omega arith)
      (omega arith, tt) (omega arith) (record { null = refl; nothing = refl }) get_key-handled
      (λ e. absurd (cc)) (omega arith) tt (omega arith) refl refl

second_request_example :
    (done : Done exact) × (data_event exact plain_codec roomy 7 ev_read reads
        (accepts 100 ∷ [])
        (new_flow (bytes "a"))
        world
      ≡ some done)
    × (done.gone ≡ false)
    × (done.response
        ≡ some
            (socket_write_data (accepts 100 ∷ []) (plain_codec.serialize get_answer ++ (0 ∷ []))))
    × (data_event exact plain_codec roomy 7 ev_read (received (8 ∷ []) ∷ []) [] done.flow done.world
        ≡ none)
unfolding serialize_payload write_payload write_text write_stats
second_request_example =
    second_request exact plain_codec roomy 7 reads (accepts 100 ∷ []) (new_flow (bytes "a")) get_key
      get_answer world world_after RequestType.get 8 [] [] [] plain-IsCodec
      (record { null = refl; nothing = refl }) get_key-Delivery (omega arith) refl refl
      get_key-handled refl
