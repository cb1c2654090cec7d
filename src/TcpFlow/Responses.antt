-- ===== src/TcpFlow/Responses.antt =====
-- The write loop `TcpFlow::socketWriteData` (server/src/TcpFlow.cpp): what it returns, what has
-- gone out, and when it ends.
use mathlib.Core.Path.{ap₂}
use remote_dict.Prelude.{
  Bool-cases, ℕ, ◌+◌, ◌≤◌, ◌<◌, ◌≡◌, refl, sym, ap, ◌∙◌, inl, inr, subst, Bool, true, not, ◌&&◌,
  ◌||◌, List, [], ◌∷◌, ◌++◌, length, take, drop, min, append-nil, append_assoc, arith,
  length-append, length-take, length-drop, take-append-drop, ◌==◌, pos, negsuc, leb, int_max,
  Option, none, some, if◌then◌else◌,
}
use mathlib.Core.Option
use remote_dict.Text.{Text}
use remote_dict.TcpFlow.Buffer.{eagain, eintr}
use remote_dict.TcpFlow.Write.{
  Write, accepts, refused, Written, returned, looping, max_rw_count, taken, add_int, write_loop,
  socket_write_data,
}

-- The errors after which the loop tries again.
abbrev pub is_retried : ℕ → Bool
is_retried errno = (errno == eagain) || (errno == eintr)

-- The sum of the bytes as an `int`: none once it has overflowed.
unfoldable pub int_sum : ℕ → Option ℕ
int_sum n = if leb n int_max then some n else none

int_sum-add : (m n : ℕ) → add_int (int_sum m) n ≡ int_sum (m + n)
unfolding add_int int_sum
int_sum-add m n = ground arith

-- What a finished, failed or unfinished call means for a buffer of which `out` is the part that
-- had gone out before.
abbrev pub Means : Text → Text → Written → Type 0
Means out buf (returned (some (pos n)) sent) = (n ≡ length sent) × (sent ≡ out ++ buf)
Means out buf (returned (some (negsuc n)) sent) =
    (n ≡ 0) × ((rest : Text) × (sent ++ rest ≡ out ++ buf) × (0 < length rest))
Means out buf (returned none sent) = (int_max < length sent) × (sent ≡ out ++ buf)
Means out buf (looping sent) = (rest : Text) × (sent ++ rest ≡ out ++ buf) × (0 < length rest)

Means-int_sum :
    (n : ℕ) (out : Text) → n ≡ length out → Means out [] (returned (Option.map pos (int_sum n)) out)
unfolding int_sum
Means-int_sum n out e = elim (Bool-cases (leb n int_max)) [
  | inl fits ↦ rw fits (e, sym (append-nil out))
  | inr over ↦ rw over (ground arith, sym (append-nil out))
]

Means-shift :
    (out front back : Text) (r : Written)
    → Means (out ++ front) back r
    → Means out (front ++ back) r
Means-shift out front back (returned (some (pos n)) sent) h =
    (h.0, h.1 ∙ append_assoc out front back)
Means-shift out front back (returned none sent) h = (h.0, h.1 ∙ append_assoc out front back)
Means-shift out front back (returned (some (negsuc n)) sent) h =
    let (rest, e, l) = h.1 in (h.0, (rest, e ∙ append_assoc out front back, l))
Means-shift out front back (looping sent) h =
    let (rest, e, l) = h in (rest, e ∙ append_assoc out front back, l)

write_loop-Means :
    (writes : List Write) (buf : Text) (out : Text)
    → Means out buf (write_loop writes buf (int_sum (length out)) out)
unfolding write_loop
write_loop-Means writes [] out = Means-int_sum (length out) out refl
write_loop-Means [] (x ∷ buf) out = (x ∷ buf, refl, omega arith)
write_loop-Means (refused errno ∷ rest) (x ∷ buf) out =
    elim (Bool-cases (not (errno == eagain) && not (errno == eintr))) [
      | inl e' ↦ rw e' (refl, (x ∷ buf, refl, omega arith))
      | inr e' ↦ rw e' (write_loop-Means rest (x ∷ buf) out)
    ]
write_loop-Means (accepts n ∷ rest) (x ∷ buf) out =
    let k : ℕ = taken n (x ∷ buf) in
    let sum : add_int (int_sum (length out)) k ≡ int_sum (length (out ++ take k (x ∷ buf))) =
      int_sum-add (length out) k
      ∙ ap int_sum (omega (arith, length-append out (take k (x ∷ buf)), length-take k (x ∷ buf))) in
    subst
      (λ t. Means out t (
        write_loop rest (drop k (x ∷ buf)) (add_int (int_sum (length out)) k)
          (out ++ take k (x ∷ buf))))
      (take-append-drop k (x ∷ buf))
      (Means-shift out (take k (x ∷ buf)) (drop k (x ∷ buf)) _ (
        subst
          (λ b.
            Means (out ++ take k (x ∷ buf)) (drop k (x ∷ buf))
              (write_loop rest (drop k (x ∷ buf)) b (out ++ take k (x ∷ buf))))
          (sym sum) (write_loop-Means rest (drop k (x ∷ buf)) (out ++ take k (x ∷ buf)))))

-- Whatever the socket answers, the bytes that went out are the buffer's first bytes in order: all
-- of them if a length is returned, which is then the buffer's; all of them, and more than INT_MAX,
-- where the sum has overflowed; and less than all of them if -1 is returned or the loop has not
-- ended.
pub socket_write_data-Means :
    (writes : List Write) (buf : Text) → Means [] buf (socket_write_data writes buf)
unfolding socket_write_data int_sum
socket_write_data-Means writes buf = write_loop-Means writes buf []

-- No error but those that are retried, and room for so many bytes.
abbrev pub AllRetried : List Write → Type 0
AllRetried [] = Unit
AllRetried (accepts n ∷ ws) = AllRetried ws
AllRetried (refused errno ∷ ws) = (is_retried errno ≡ true) × AllRetried ws

-- As many bytes as the writes take, each of them MAX_RW_COUNT at most.
unfoldable pub capacity : List Write → ℕ
capacity [] = 0
capacity (accepts n ∷ ws) = min n max_rw_count + capacity ws
capacity (refused errno ∷ ws) = capacity ws

write_loop_total :
    (writes : List Write) (buf : Text) (sum : ℕ) (out : Text)
    → AllRetried writes
    → length buf ≤ capacity writes
    → write_loop writes buf (int_sum sum) out
      ≡ returned (Option.map pos (int_sum (sum + length buf))) (out ++ buf)
unfolding write_loop capacity
write_loop_total writes [] sum out h room =
    ap₂ (λ n t. returned (Option.map pos (int_sum n)) t) (omega arith) (sym (append-nil out))
write_loop_total [] (x ∷ buf) sum out h room = absurd (omega arith)
write_loop_total (refused errno ∷ rest) (x ∷ buf) sum out h room =
    ground (arith, write_loop_total rest (x ∷ buf) sum out h.1)
write_loop_total (accepts n ∷ rest) (x ∷ buf) sum out h room =
    let k : ℕ = taken n (x ∷ buf) in
    let ih : write_loop rest (drop k (x ∷ buf)) (int_sum (sum + k)) (out ++ take k (x ∷ buf)) ≡ _ =
      write_loop_total rest (drop k (x ∷ buf)) (sum + k) (out ++ take k (x ∷ buf)) h
        (omega (arith, length-drop k (x ∷ buf))) in
    ap (λ b. write_loop rest (drop k (x ∷ buf)) b (out ++ take k (x ∷ buf))) (int_sum-add sum k)
    ∙ (ih
        ∙ ap₂ (λ m t. returned (Option.map pos (int_sum m)) t)
            (omega (arith, length-drop k (x ∷ buf)))
            (append_assoc out (take k (x ∷ buf)) (drop k (x ∷ buf))
              ∙ ap (◌++◌ out) (take-append-drop k (x ∷ buf))))

-- If every refusal is one to retry and the socket takes enough bytes in all, the loop ends with
-- the whole buffer written, and gives its length unless that is more than INT_MAX, where the sum
-- has overflowed.
pub socket_write_data_total :
    (writes : List Write) (buf : Text)
    → AllRetried writes
    → length buf ≤ capacity writes
    → socket_write_data writes buf
      ≡ returned (if leb (length buf) int_max then some (pos (length buf)) else none) buf
unfolding socket_write_data int_sum
socket_write_data_total writes buf h room =
    write_loop_total writes buf 0 [] h room ∙ ap (λ n. returned n buf) (ground arith)

-- So a buffer of at most INT_MAX bytes is written with its length as the result.
pub socket_write_data_small :
    (writes : List Write) (buf : Text)
    → AllRetried writes
    → length buf ≤ capacity writes
    → length buf ≤ int_max
    → socket_write_data writes buf ≡ returned (some (pos (length buf))) buf
socket_write_data_small writes buf h room small =
    socket_write_data_total writes buf h room ∙ ap (λ n. returned n buf) (ground arith)
