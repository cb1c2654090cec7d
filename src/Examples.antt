-- ===== src/Examples.antt =====
-- Concrete inputs for the theorems: a filter that remembers its keys, a serializer that writes
-- each optional field behind its length, and states of the server and the client.
mod Store
mod Flows
mod Workers
mod Requests
mod Sessions
mod Programs
mod Lifecycle
mod Exchanges
mod Answered
mod Interleaved
mod Signals
use remote_dict.Prelude.{
  ℕ, zero, suc, ◌+◌, ◌<◌, ◌≡◌, ◌≢◌, refl, ap, sym, ◌∙◌, Bool, true, false, Option, none, some, List,
  [], ◌∷◌, ◌++◌, length, take, drop, arith, ℤ, pos, negsuc, take-append, drop-append, append_assoc,
  append-nil, if◌then◌else◌,
}
use remote_dict.Text.{Text, bytes, text_eq, text_eq_refl}
use remote_dict.BloomFilter.{BloomFilter, NoFalseNegatives, FreshIsEmpty}
use remote_dict.Client.RoundTrip.{StopsAtZero}
use remote_dict.Payload.{Payload, RequestType, Stat, Codec, IsCodec, empty}

pub member : List Text → Text → Bool
member [] k = false
member (j ∷ js) k = if text_eq j k then true else member js k

-- A filter without false positives.
abbrev pub exact : BloomFilter
exact = record { Filter = List Text; fresh = λ n p. []; insert = λ f k. k ∷ f; contains = member }

pub exact-NoFalseNegatives : NoFalseNegatives exact
unfolding member
exact-NoFalseNegatives = record {
  contains-insert = λ f k. rw (text_eq_refl k) refl;
  contains_mono = λ f j k h. ground arith;
}

pub exact-FreshIsEmpty : FreshIsEmpty exact
unfolding member
exact-FreshIsEmpty = record { contains-fresh = λ n p k. refl }

-- An allocator that never fails.
abbrev pub roomy : ℕ → Bool
roomy n = true

pub write_text : Option Text → Text
write_text none = 0 ∷ []
write_text (some s) = suc (length s) ∷ s

pub read_text : Text → Option Text × Text
read_text [] = (none, [])
read_text (zero ∷ rest) = (none, rest)
read_text (suc n ∷ rest) = (some (take n rest), drop n rest)

read-write_text : (o : Option Text) (rest : Text) → read_text (write_text o ++ rest) ≡ (o, rest)
unfolding read_text write_text
read-write_text none rest = refl
read-write_text (some s) rest =
    rw (take-append s rest (length s) refl, drop-append s rest (length s) refl) refl

pub write_int : Option ℤ → Text
write_int none = 0 ∷ 0 ∷ []
write_int (some (pos n)) = 1 ∷ n ∷ []
write_int (some (negsuc n)) = 2 ∷ n ∷ []

pub read_int : Text → Option ℤ × Text
read_int (zero ∷ n ∷ rest) = (none, rest)
read_int (suc zero ∷ n ∷ rest) = (some (pos n), rest)
read_int (suc (suc _) ∷ n ∷ rest) = (some (negsuc n), rest)
read_int _ = (none, [])

read-write_int : (o : Option ℤ) (rest : Text) → read_int (write_int o ++ rest) ≡ (o, rest)
unfolding read_int write_int
read-write_int none rest = refl
read-write_int (some (pos n)) rest = refl
read-write_int (some (negsuc n)) rest = refl

pub write_stats : Option Stat → Text
unfolding write_int
write_stats none = 0 ∷ []
write_stats (some s) =
    1 ∷ (write_int s.numgetreq ++ (write_int s.numsuccgetreq ++ write_int s.numfailgetreq))

pub read_stats : Text → Option Stat × Text
unfolding read_int
read_stats [] = (none, [])
read_stats (zero ∷ rest) = (none, rest)
read_stats (suc _ ∷ rest) =
    let (a, rest₁) = read_int rest in
    let (b, rest₂) = read_int rest₁ in
    let (c, rest₃) = read_int rest₂ in
    (some (record { numgetreq = a; numsuccgetreq = b; numfailgetreq = c }), rest₃)

read-write_stats : (o : Option Stat) (rest : Text) → read_stats (write_stats o ++ rest) ≡ (o, rest)
unfolding read_stats write_stats
read-write_stats none rest = refl
read-write_stats (some s) rest =
    rw
      (
        append_assoc (write_int s.numgetreq)
            (write_int s.numsuccgetreq ++ write_int s.numfailgetreq) rest,
        append_assoc (write_int s.numsuccgetreq) (write_int s.numfailgetreq) rest,
        read-write_int s.numgetreq
            (write_int s.numsuccgetreq ++ (write_int s.numfailgetreq ++ rest)),
        read-write_int s.numsuccgetreq (write_int s.numfailgetreq ++ rest),
        read-write_int s.numfailgetreq rest,
      )
      refl

pub type_code : RequestType → ℕ
type_code RequestType.get = 0
type_code RequestType.set = 1
type_code RequestType.stat = 2

pub code_type : ℕ → RequestType
code_type zero = RequestType.get
code_type (suc zero) = RequestType.set
code_type (suc (suc _)) = RequestType.stat

code-type : (t : RequestType) → code_type (type_code t) ≡ t
unfolding code_type type_code
code-type RequestType.get = refl
code-type RequestType.set = refl
code-type RequestType.stat = refl

pub write_payload : RequestType → Payload → Text
unfolding type_code write_text write_stats
write_payload t p =
    type_code t
    ∷ (write_text p.key ++ (write_text p.value ++ (write_stats p.stats ++ write_text p.reason)))

pub read_payload : Text → Bool × Payload
unfolding code_type read_text read_stats
read_payload [] = (false, empty)
read_payload (t ∷ rest) =
    let (key, rest₁) = read_text rest in
    let (value, rest₂) = read_text rest₁ in
    let (stats, rest₃) = read_stats rest₂ in
    let (reason, rest₄) = read_text rest₃ in
    (
      true,
      record {
        requesttype = some (code_type t);
        key = key;
        value = value;
        stats = stats;
        reason = reason;
      },
    )

-- A message without its required field is written as nothing.
pub serialize_payload : Payload → Text
unfolding write_payload
serialize_payload p = elim p.requesttype [ none ↦ [] | some t ↦ write_payload t p ]

abbrev pub plain_codec : Codec
plain_codec = record { parse = read_payload; serialize = serialize_payload }

-- Bytes behind a message are not read.
read-write_payload :
    (t : RequestType) (p : Payload) (rest : Text)
    → p.requesttype ≡ some t
    → read_payload (write_payload t p ++ rest) ≡ (true, p)
unfolding read_payload write_payload
read-write_payload t p rest e =
    rw
      (
        append_assoc (write_text p.key)
            (write_text p.value ++ (write_stats p.stats ++ write_text p.reason)) rest,
        append_assoc (write_text p.value) (write_stats p.stats ++ write_text p.reason) rest,
        append_assoc (write_stats p.stats) (write_text p.reason) rest,
        read-write_text p.key
            (write_text p.value ++ (write_stats p.stats ++ (write_text p.reason ++ rest))),
        read-write_text p.value (write_stats p.stats ++ (write_text p.reason ++ rest)),
        read-write_stats p.stats (write_text p.reason ++ rest),
        read-write_text p.reason rest,
        code-type t,
      )
      (ground arith)

parse-serialize_plain :
    (p : Payload) (rest : Text) (o : Option RequestType)
    → p.requesttype ≡ o
    → o ≢ none
    → (read_payload (serialize_payload p ++ rest) ≡ (true, p)) × (0 < length (serialize_payload p))
unfolding serialize_payload write_payload
parse-serialize_plain p rest none e ne = absurd (ne refl)
parse-serialize_plain p rest (some t) e ne =
    simp (e, serialize_payload) (read-write_payload t p rest e, omega arith)

nothing-plain : (read_payload []).1.requesttype ≡ none
unfolding read_payload
nothing-plain = refl

pub plain-IsCodec : IsCodec plain_codec
plain-IsCodec = record {
  parse-serialize = λ p ne.
      ap read_payload (sym (append-nil (serialize_payload p)))
      ∙ (parse-serialize_plain p [] p.requesttype refl ne).0;
  serialize-ne_nil = λ p ne. (parse-serialize_plain p [] p.requesttype refl ne).1;
  parse-nil = nothing-plain;
}

pub plain-StopsAtZero : StopsAtZero plain_codec
plain-StopsAtZero = record {
  parse-padded = λ p ne.
      ap (λ (r : Bool × Payload). r.1) (parse-serialize_plain p (0 ∷ []) p.requesttype refl ne).0;
}
