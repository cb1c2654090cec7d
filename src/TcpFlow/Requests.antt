-- ===== src/TcpFlow/Requests.antt =====
-- The request handlers of server/src/TcpFlow.cpp, over the state that all flows share.
use remote_dict.Prelude.{Option, some, [], if◌then◌else◌, ◌>>=◌, int32_of}
use remote_dict.Text.{bytes}
use remote_dict.BloomFilter.{BloomFilter}
use remote_dict.Dictionary
use remote_dict.Dictionary.{Dictionary}
use remote_dict.Stats.{Stats, incr_get_req, incr_get_req_succ, incr_get_req_fail}
use remote_dict.Payload.{Payload, RequestType, Stat, text_of}

-- The two singletons.
pub record World (b : BloomFilter) : Type 0 where
  pub dictionary : Dictionary b
  pub stats : Stats

module _ (b : BloomFilter) where
  unfoldable pub handle_get_request : Payload → World b → Option (Payload × World b)
  handle_get_request p w = do
    let counted = incr_get_req w.stats
    r ← Dictionary.get b (text_of p.key) [] w.dictionary
    some (
        if r.0
        then (record p { value = some r.1 }, record w { stats = incr_get_req_succ counted })
        else (record p { reason = some r.1 }, record w { stats = incr_get_req_fail counted }))

  unfoldable pub handle_set_request : Payload → World b → Option (Payload × World b)
  handle_set_request p w = do
    r ← Dictionary.set b (text_of p.key) (text_of p.value) w.dictionary
    some (
      if r.0 then p else record p { reason = some (bytes "failed") },
      record w { dictionary = r.1 },
    )

  unfoldable pub handle_stat_request : Payload → World b → Option (Payload × World b)
  handle_stat_request p w =
      let counters : Stat = record {
        numgetreq = some (int32_of w.stats.num_get_req);
        numsuccgetreq = some (int32_of w.stats.num_get_req_succ);
        numfailgetreq = some (int32_of w.stats.num_get_req_fail);
      } in
      some (record p { stats = some counters }, w)

  -- The `switch` of `parse`; its default is for no value of the type.
  unfoldable pub handle_request : RequestType → Payload → World b → Option (Payload × World b)
  handle_request RequestType.get p w = handle_get_request p w
  handle_request RequestType.set p w = handle_set_request p w
  handle_request RequestType.stat p w = handle_stat_request p w
