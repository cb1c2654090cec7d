-- ===== src/Payload.antt =====
-- The message of protobuf/src/messagebody.proto, as the generated class holds it, and the
-- serializer of Protocol Buffers, which is a parameter.
use remote_dict.Prelude.{◌<◌, ◌≡◌, ◌≢◌, Bool, true, Option, none, some, ℤ, length, []}
use remote_dict.Text.{Text}

-- A value on the wire that is not in the enumeration goes to the unknown fields (proto2), so the
-- field has one of these or is absent.
pub data RequestType : Type 0 where
  get set stat : RequestType

pub record Stat : Type 0 where
  pub numgetreq : Option ℤ
  pub numsuccgetreq : Option ℤ
  pub numfailgetreq : Option ℤ

pub record Payload : Type 0 where
  pub requesttype : Option RequestType
  pub key : Option Text
  pub value : Option Text
  pub stats : Option Stat
  pub reason : Option Text

abbrev pub empty : Payload
empty = record { requesttype = none; key = none; value = none; stats = none; reason = none }

-- The accessor of an optional string: the default is the empty one.
abbrev pub text_of : Option Text → Text
text_of none = []
text_of (some s) = s

-- `parse` is ParseFromArray: the result, and what the message then holds. `serialize p` are the
-- ByteSizeLong bytes that SerializeToArray writes.
pub record Codec : Type 0 where
  pub parse : Text → Bool × Payload
  pub serialize : Payload → Text

-- The documented behaviour that the program relies on. A message with its required field comes
-- back as it was; no such message is empty; empty
-- input has no request type.
pub record IsCodec (c : Codec) : Type 0 where
  pub parse-serialize : (p : Payload) → p.requesttype ≢ none → c.parse (c.serialize p) ≡ (true, p)
  pub serialize-ne_nil : (p : Payload) → p.requesttype ≢ none → 0 < length (c.serialize p)
  pub parse-nil : (c.parse []).1.requesttype ≡ none
