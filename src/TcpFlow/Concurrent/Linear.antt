-- ===== src/TcpFlow/Concurrent/Linear.antt =====
-- The handlers of several threads (server/src/TcpFlow.cpp) against the ideal server.
use remote_dict.Prelude.{ℕ, ◌<◌, refl, List, arith, replicate, length-replicate}
use remote_dict.BloomFilter.{BloomFilter}
use remote_dict.Stats.{incr_get_req}
use remote_dict.TcpFlow.Requests.{World}
use remote_dict.TcpFlow.Ideal.{Ideal, Represents}
use remote_dict.TcpFlow.Concurrent.{
  idle, setting, getting, counting, Entry, stored, got, get_answer, count_outcome, Shared, Run,
  stop, passes, refuses, writes, counts, gets, ends, moves,
}
use remote_dict.TcpFlow.Concurrent.Counting.{is_setting, is_getting, is_hit, is_miss, sum_of-idle}
use remote_dict.TcpFlow.Concurrent.Order.{after, replay, IsLinear}
use remote_dict.TcpFlow.Concurrent.Holds.{
  Holds, passes-Holds, refuses-full, writes-Holds, counts-Holds, ends-Holds, gets-Holds,
}

module _ (b : BloomFilter) where
  Run-Holds :
      (n : ℕ) (t s : Shared b) (es : List Entry) (a : Ideal)
      → Holds b n s a
      → Run b t s es
      → IsLinear n es a × Holds b n t (replay es a)
  unfolding replay
  Run-Holds n t s es a v stop = (tt, v)
  Run-Holds n t s es a v (passes i p at room rest) =
      Run-Holds n t (moves b i (setting p) s.world s) es a (passes-Holds b n i s a v p at room) rest
  Run-Holds n t s es a v (refuses {es = es'} i p at full rest) =
      let (linear, last) = Run-Holds n t s es' a v rest in
      ((refuses-full b n i s a v full, linear), last)
  Run-Holds n t s es a v (writes {es = es'} i p d at wrote rest) =
      let (v', room) = writes-Holds b n i s a v p d at wrote in
      let (linear, last) =
        Run-Holds n t (moves b i idle (record s.world { dictionary = d }) s) es'
          (after (stored p) a) v' rest in
      ((room, linear), last)
  Run-Holds n t s es a v (counts i p at rest) =
      Run-Holds n t
        (moves b i (getting p) (record s.world { stats = incr_get_req s.world.stats }) s) es a
        (counts-Holds b n i s a v p at) rest
  Run-Holds n t s es a v (gets {es = es'} i p r at gave rest) =
      let (v', agrees) = gets-Holds b n i s a v p r at gave in
      let (linear, last) =
        Run-Holds n t (moves b i (counting p r) s.world s) es' (after (got p (get_answer p r)) a) v'
          rest in
      ((agrees, linear), last)
  Run-Holds n t s es a v (ends i p r at rest) =
      Run-Holds n t (moves b i idle (record s.world { stats = count_outcome r.0 s.world.stats }) s)
        es a (ends-Holds b n i s a v p r.0 r.1 at) rest

-- However the sections under a lock of the GETs and SETs of `n` threads interleave, with the tests
-- of the size outside them, from a server that represents an ideal one without the filter, and with
-- no handler on its way: in the order in which they take effect every GET is answered as the ideal
-- server answers it, a SET is refused only where the limit is reached, and is written only where
-- the keys are less than `n` above it. The state in the end holds the ideal server's after them,
-- where the counters lack what the handlers on their way have not counted.
pub handlers-IsLinear :
    (b : BloomFilter) (n : ℕ) (w : World b) (a : Ideal) (t : Shared b) (es : List Entry)
    → 0 < n
    → Represents b w a
    → Run b t (record { world = w; threads = replicate n idle }) es
    → IsLinear n es a × Holds b n t (replay es a)
handlers-IsLinear b n w a t es some_thread r run =
    Run-Holds b n t (record { world = w; threads = replicate n idle }) es a
      (record {
        unfiltered = r.unfiltered;
        contents = r.contents;
        size = r.size;
        requests = omega (arith, r.requests, sum_of-idle is_getting n refl);
        succeeded = omega (arith, r.succeeded, sum_of-idle is_hit n refl);
        failed = omega (arith, r.failed, sum_of-idle is_miss n refl);
        bounded = omega (arith, r.size, r.valid.bounded, sum_of-idle is_setting n refl);
        counted = length-replicate n idle;
      })
      run
