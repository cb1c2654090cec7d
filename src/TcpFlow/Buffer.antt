-- ===== src/TcpFlow/Buffer.antt =====
-- The buffer of a flow and the read loop of `TcpFlow::data` (server/src/TcpFlow.cpp). `none` is
-- undefined behaviour: a `memcpy` past the allocation or to null, a negative length, or the use
-- of `m_currlen`, which the constructor leaves indeterminate.
use remote_dict.Prelude.{
  ℕ, zero, suc, ◌+◌, ◌-◌, ◌*◌, ◌%◌, Bool, false, not, Option, none, some, List, [], ◌∷◌, ◌++◌,
  length, take, drop, replicate, leb, ltb, ◌==◌, if◌then◌else◌, ◌>>=◌, u32_mod,
}
use remote_dict.Text.{Text}
use remote_dict.Payload.{Payload, empty}

-- NUM_READ_TRY
abbrev pub num_read_try : ℕ
num_read_try = 50

-- BUFLEN
abbrev pub buf_len : ℕ
buf_len = 1200

-- `errno` values; EWOULDBLOCK is EAGAIN.
abbrev pub eintr : ℕ
eintr = 4

abbrev pub eagain : ℕ
eagain = 11

-- The result of one `read` on the client's socket: bytes, of which none mean the end of the
-- stream, or -1 with an `errno`.
pub data Read : Type 0 where
  received : Text → Read
  failed : ℕ → Read

-- `client_fd` is `none` for -1. `buffer` is `m_data`, with the allocated bytes. `currlen` is
-- `none` while it is indeterminate.
pub record Flow : Type 0 where
  pub client_fd : Option ℕ
  pub self_addr : Text
  pub payload : Payload
  pub poll_again : Bool
  pub buffer : Option Text
  pub payload_len : ℕ
  pub len_till_now : ℕ
  pub currlen : Option ℕ

-- The constructor, and `setAddr`.
abbrev pub new_flow : Text → Flow
new_flow addr = record {
  client_fd = none;
  self_addr = addr;
  payload = empty;
  poll_again = false;
  buffer = none;
  payload_len = 0;
  len_till_now = 0;
  currlen = none;
}

-- `*(uint32_t *)buffer` on a little-endian host.
unfoldable pub le32 : Text → ℕ
le32 (a ∷ b ∷ c ∷ d ∷ _) = a + 256 * b + 65536 * c + 16777216 * d
le32 _ = 0

-- `memcpy(dst + off, src, len)` within an allocation.
unfoldable pub memcpy : Text → ℕ → Text → Option Text
memcpy dst off src =
    if leb (off + length src) (length dst)
    then some (take off dst ++ (src ++ drop (off + length src) dst))
    else none

-- A chunk for a flow that has its buffer.
unfoldable pub append_chunk : Text → Text → Flow → Option Flow
append_chunk d chunk f = do
  c ← f.currlen
  d' ← memcpy d c chunk
  some (record f {
    len_till_now = (f.len_till_now + length chunk) % u32_mod;
    buffer = some d';
    currlen = some ((c + length chunk) % u32_mod);
  })

-- `calloc(1, n)`, which gives null where `alloc n` is false.
abbrev pub calloc : (ℕ → Bool) → ℕ → Option Text
calloc alloc n = if alloc n then some (replicate n 0) else none

-- The payload bytes behind the header, copied to the new buffer; `m_len - 4` is negative if the
-- chunk is shorter than the header.
unfoldable pub copy_rest : Text → Flow → Option Flow
copy_rest chunk f = if ltb (length chunk) 4 then none else do
  d ← f.buffer
  d' ← memcpy d 0 (drop 4 chunk)
  some (record f { buffer = some d'; currlen = some (length chunk - 4) })

-- The header has said that the payload has `n` bytes.
unfoldable pub start_buffer : (ℕ → Bool) → Text → ℕ → ℕ → Flow → Option Flow
unfolding copy_rest
start_buffer alloc chunk till n f =
    let f' = record f { len_till_now = till; payload_len = n; buffer = calloc alloc n } in
    if ltb 4 till then copy_rest chunk f' else some f'

-- The chunk that brings `m_lenTillnow` to `till`, for a flow without a buffer. The header is read
-- from the local array, which is zero beyond the chunk.
unfoldable pub first_chunk : (ℕ → Bool) → Text → ℕ → Flow → Option Flow
unfolding le32 start_buffer
first_chunk alloc chunk till f =
    if leb 4 till
    then start_buffer alloc chunk till (le32 (chunk ++ replicate 4 0)) f
    else some (record f { len_till_now = till })

unfoldable pub receive : (ℕ → Bool) → Text → Flow → Option Flow
unfolding append_chunk first_chunk
receive alloc chunk f = elim f.buffer [
  | some d ↦ append_chunk d chunk f
  | none ↦ first_chunk alloc chunk ((f.len_till_now + length chunk) % u32_mod) f
]

-- How the read loop ends: the delete callback was called and `data` has returned, or the loop is
-- over, with the reads that are left.
pub data Loop : Type 0 where
  deleted : Flow → Loop
  finished : Flow → List Read → Loop

-- The loop with its rounds left. A socket with nothing more to read gives EAGAIN.
unfoldable pub read_loop : (ℕ → Bool) → ℕ → List Read → Flow → Option Loop
unfolding receive
read_loop alloc zero reads f = some (finished f reads)
read_loop alloc (suc i) [] f = some (finished f [])
read_loop alloc (suc i) (received [] ∷ rest) f = some (deleted f)
read_loop alloc (suc i) (received (c ∷ chunk) ∷ rest) f = do
  f' ← receive alloc (c ∷ chunk) f
  read_loop alloc i rest f'
read_loop alloc (suc i) (failed errno ∷ rest) f =
    if not (errno == eagain)
    then some (deleted (record f { poll_again = false }))
    else some (finished f rest)
