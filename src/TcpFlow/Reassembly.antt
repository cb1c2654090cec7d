-- ===== src/TcpFlow/Reassembly.antt =====
-- What the buffer of a flow holds while the bytes of one message come in
-- (server/src/TcpFlow.cpp, `TcpFlow::data`).
use native.Mathlib.Nat.{sub-zero}
use remote_dict.Prelude.{
  ℕ, zero, suc, ◌+◌, ◌-◌, ◌%◌, ◌≤◌, ◌<◌, ◌≡◌, refl, sym, ap, Bool, true, none, some, List, [], ◌∷◌,
  ◌++◌, length, replicate, append_assoc, append-nil, arith, length-append, take-append,
  drop-append_add, drop-replicate, le→leb, length-replicate, u32_mod, map,
}
use remote_dict.Text.{Text}
use remote_dict.TcpFlow.Buffer.{
  Flow, received, finished, memcpy, append_chunk, receive, read_loop, le32,
}

-- The flow has got the header of a message of `n` bytes, and of these bytes `got`.
pub record Holds (f : Flow) (got : Text) (n : ℕ) : Type 0 where
  pub filled : f.buffer ≡ some (got ++ replicate (n - length got) 0)
  pub offset : f.currlen ≡ some (length got)
  pub announced : f.payload_len ≡ n
  pub counted : f.len_till_now ≡ 4 + length got

memcpy_within :
    (got chunk : Text) (n : ℕ)
    → length got + length chunk ≤ n
    → memcpy (got ++ replicate (n - length got) 0) (length got) chunk
      ≡ some ((got ++ chunk) ++ replicate (n - length (got ++ chunk)) 0)
unfolding memcpy
memcpy_within got chunk n fits =
    let tail : Text = replicate (n - length got) 0 in
    let room : length got + length chunk ≤ length (got ++ tail) =
      omega (arith, length-append got tail, length-replicate {A = ℕ} (n - length got) 0) in
    rw (le→leb (length got + length chunk) (length (got ++ tail)) room) (
      ap some (
        rw
          (
            take-append got tail (length got) refl,
            drop-append_add got tail (length chunk),
            drop-replicate {A = ℕ} (length chunk) (n - length got) 0,
            length-append got chunk,
          )
          (let e : n - length got - length chunk ≡ n - (length got + length chunk) = omega arith in
            rw e (sym (append_assoc got chunk (replicate (n - (length got + length chunk)) 0))))))

memcpy_start :
    (chunk : Text) (n : ℕ)
    → length chunk ≤ n
    → memcpy (replicate n 0) 0 chunk ≡ some (chunk ++ replicate (n - length chunk) 0)
memcpy_start chunk n fits = rw sub-zero at (memcpy_within [] chunk n (omega arith))

-- A chunk that fits.
pub receive-Holds :
    (alloc : ℕ → Bool) (f : Flow) (got chunk : Text) (n : ℕ)
    → Holds f got n
    → length got + length chunk ≤ n
    → n + 4 < u32_mod
    → (f' : Flow) × (receive alloc chunk f ≡ some f') × Holds f' (got ++ chunk) n
unfolding receive append_chunk
receive-Holds alloc f got chunk n h fits small = (
  record f {
    len_till_now = (f.len_till_now + length chunk) % u32_mod;
    buffer = some ((got ++ chunk) ++ replicate (n - length (got ++ chunk)) 0);
    currlen = some ((length got + length chunk) % u32_mod);
  },
  rw (h.filled, receive, h.offset, memcpy_within got chunk n fits) refl,
  record {
    filled = refl;
    offset = ground (arith, length-append got chunk);
    announced = h.announced;
    counted = ground (arith, length-append got chunk, h.counted);
  },
)

-- The first chunk of a message: its header and at least one byte of the payload.
pub first-Holds :
    (alloc : ℕ → Bool) (f : Flow) (a b c d x : ℕ) (chunk : Text) (n : ℕ)
    → f.buffer ≡ none
    → f.len_till_now ≡ 0
    → le32 (a ∷ b ∷ c ∷ d ∷ []) ≡ n
    → alloc n ≡ true
    → length (x ∷ chunk) ≤ n
    → n + 4 < u32_mod
    → (f' : Flow) × (receive alloc (a ∷ b ∷ c ∷ d ∷ x ∷ chunk) f ≡ some f') × Holds f' (x ∷ chunk) n
unfolding receive le32
first-Holds alloc f a b c d x chunk n null zero_till header room fits small = (
  record f {
    len_till_now = 4 + length (x ∷ chunk);
    payload_len = n;
    buffer = some ((x ∷ chunk) ++ replicate (n - length (x ∷ chunk)) 0);
    currlen = some (length (x ∷ chunk));
  },
  ground (arith, memcpy_start (x ∷ chunk) n),
  record { filled = refl; offset = refl; announced = refl; counted = refl },
)

unfoldable pub concat : List Text → Text
concat [] = []
concat (c ∷ cs) = c ++ concat cs

-- Chunks of a message, none of them empty, within the rounds of the loop.
abbrev pub NonEmpty : List Text → Type 0
NonEmpty [] = Unit
NonEmpty (c ∷ cs) = (0 < length c) × NonEmpty cs

pub read_loop-Holds :
    (alloc : ℕ → Bool) (rounds : ℕ) (f : Flow) (got : Text) (chunks : List Text) (n : ℕ)
    → Holds f got n
    → NonEmpty chunks
    → length chunks ≤ rounds
    → length got + length (concat chunks) ≤ n
    → n + 4 < u32_mod
    → (f' : Flow) × (read_loop alloc rounds (map received chunks) f ≡ some (finished f' []))
      × Holds f' (got ++ concat chunks) n
unfolding read_loop concat
read_loop-Holds alloc zero f got [] n h ne enough fits small = (f, refl, rw append-nil h)
read_loop-Holds alloc (suc i) f got [] n h ne enough fits small = (f, refl, rw append-nil h)
read_loop-Holds alloc zero f got (c ∷ cs) n h ne enough fits small = absurd (omega arith)
read_loop-Holds alloc (suc i) f got ([] ∷ cs) n h ne enough fits small = absurd (omega arith)
read_loop-Holds alloc (suc i) f got ((x ∷ c) ∷ cs) n h ne enough fits small =
    let sizes : length ((x ∷ c) ++ concat cs) ≡ length (x ∷ c) + length (concat cs) =
      length-append (x ∷ c) (concat cs) in
    let (f₁, e, h₁) = receive-Holds alloc f got (x ∷ c) n h (omega arith) small in
    let (f₂, e', h₂) =
      read_loop-Holds alloc i f₁ (got ++ x ∷ c) cs n h₁ ne.1 (omega arith)
        (omega (arith, length-append got (x ∷ c))) small in
    (f₂, rw e e', rw append_assoc at h₂)
