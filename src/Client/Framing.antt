-- ===== src/Client/Framing.antt =====
-- The frame of client/src/Client.cpp beside the read loop of server/src/TcpFlow.cpp.
use remote_dict.Prelude.{
  ℕ, ◌<◌, ◌≡◌, refl, ap, ◌∙◌, List, [], ◌∷◌, ◌++◌, map, length, drop, arith, u32_mod,
}
use remote_dict.Text.{Text}
use remote_dict.Payload.{Payload, Codec}
use remote_dict.TcpFlow.Buffer.{le32, received, num_read_try}
use remote_dict.TcpFlow.Reassembly.{concat, NonEmpty}
use remote_dict.TcpFlow.Messages.{Delivery}
use remote_dict.Client.{size_bytes, frame}

-- The header holds the length, for each length of 32 bits.
pub le32-size_bytes : (n : ℕ) (rest : Text) → n < u32_mod → le32 (size_bytes n ++ rest) ≡ n
unfolding le32 size_bytes
le32-size_bytes n rest h = omega arith

-- The frame that a client writes for a message shorter than 2 ^ 32 bytes, cut into a first read
-- that goes past the header and less than 50 further reads with bytes in each, is a delivery of
-- the serialized message to the server.
pub frame-Delivery :
    (codec : Codec) (p : Payload) (first : Text) (chunks : List Text)
    → length (codec.serialize p) < u32_mod
    → first ++ concat chunks ≡ frame codec p
    → 4 < length first
    → NonEmpty chunks
    → length chunks < num_read_try
    → Delivery (codec.serialize p) (map received (first ∷ chunks))
unfolding frame size_bytes le32
frame-Delivery codec p [] chunks small e long ne few = absurd (omega arith)
frame-Delivery codec p (a ∷ []) chunks small e long ne few = absurd (omega arith)
frame-Delivery codec p (a ∷ b ∷ []) chunks small e long ne few = absurd (omega arith)
frame-Delivery codec p (a ∷ b ∷ c ∷ []) chunks small e long ne few = absurd (omega arith)
frame-Delivery codec p (a ∷ b ∷ c ∷ d ∷ []) chunks small e long ne few = absurd (omega arith)
frame-Delivery codec p (a ∷ b ∷ c ∷ d ∷ x ∷ start) chunks small e long ne few = record {
  a = a;
  b = b;
  c = c;
  d = d;
  x = x;
  start = start;
  chunks = chunks;
  header = ap le32 e ∙ omega arith;
  whole = ap (drop 4) e;
  nonempty = ne;
  enough = few;
  as_reads = refl;
}
