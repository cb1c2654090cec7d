-- ===== src/Stats.antt =====
-- server/include/Stats.h and server/src/Stats.cpp: the counters of GET requests that all worker
-- threads share. Each increment holds the lock, so it is one step on the state; the singleton's
-- `call_once` is the initial value `init`.
pub mod Concurrent
use remote_dict.Prelude.{ℕ, ◌+◌, ◌%◌, u64_mod}

pub record Stats : Type 0 where
  pub num_get_req : ℕ
  pub num_get_req_succ : ℕ
  pub num_get_req_fail : ℕ

abbrev pub init : Stats
init = record { num_get_req = 0; num_get_req_succ = 0; num_get_req_fail = 0 }

unfoldable pub incr_get_req : Stats → Stats
incr_get_req s = record s { num_get_req = (s.num_get_req + 1) % u64_mod }

unfoldable pub incr_get_req_succ : Stats → Stats
incr_get_req_succ s = record s { num_get_req_succ = (s.num_get_req_succ + 1) % u64_mod }

unfoldable pub incr_get_req_fail : Stats → Stats
incr_get_req_fail s = record s { num_get_req_fail = (s.num_get_req_fail + 1) % u64_mod }
