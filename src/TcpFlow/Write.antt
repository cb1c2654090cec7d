-- ===== src/TcpFlow/Write.antt =====
-- `TcpFlow::socketWriteData` (server/src/TcpFlow.cpp): the loop that writes a buffer to the
-- client's socket.
use remote_dict.Prelude.{
  ℕ, ◌+◌, min, not, ◌&&◌, Option, none, some, List, [], ◌∷◌, ◌++◌, length, take, drop, leb, ◌==◌,
  if◌then◌else◌, ℤ, pos, negsuc, int_max,
}
use mathlib.Core.Option
use remote_dict.Text.{Text}
use remote_dict.TcpFlow.Buffer.{eagain, eintr}

-- The result of one `write`: the socket takes up to so many bytes of what it is offered, or it
-- gives -1 with an `errno`.
pub data Write : Type 0 where
  accepts : ℕ → Write
  refused : ℕ → Write

-- What the call has come to after the writes of a script, and the bytes that went out. The value
-- is `none` once the sum has overflowed, which is undefined.
pub data Written : Type 0 where
  returned : Option ℤ → Text → Written
  looping : Text → Written

-- MAX_RW_COUNT of Linux, which one `write` takes at most, so that `int n` holds its result.
abbrev pub max_rw_count : ℕ
max_rw_count = 2147479552

-- The bytes that one `write` takes of a buffer.
abbrev pub taken : ℕ → Text → ℕ
taken n buf = min (min n max_rw_count) (length buf)

-- `bytes += n` on an `int`; `none` is an overflow.
unfoldable pub add_int : Option ℕ → ℕ → Option ℕ
add_int none n = none
add_int (some bytes) n = if leb (bytes + n) int_max then some (bytes + n) else none

unfoldable pub write_loop : List Write → Text → Option ℕ → Text → Written
unfolding add_int
write_loop writes [] bytes out = returned (Option.map pos bytes) out
write_loop [] (x ∷ buf) bytes out = looping out
write_loop (refused errno ∷ rest) (x ∷ buf) bytes out =
    let again = write_loop rest (x ∷ buf) bytes out in
    if not (errno == eagain) && not (errno == eintr) then returned (some (negsuc 0)) out else again
write_loop (accepts n ∷ rest) (x ∷ buf) bytes out =
    let k = taken n (x ∷ buf) in
    write_loop rest (drop k (x ∷ buf)) (add_int bytes k) (out ++ take k (x ∷ buf))

unfoldable pub socket_write_data : List Write → Text → Written
unfolding write_loop
socket_write_data writes buf = write_loop writes buf (some 0) []
