-- ===== src/TestClient/Input/Fields.antt =====
-- The fields of a line of the input file (client/src/TestClient.cpp): requests written as fields
-- between commas, with white space in front of each.
use mathlib.Core.Path.{ap₂}
use remote_dict.Prelude.{
  length-append, ℕ, ◌<◌, ◌≡◌, ◌≢◌, refl, sym, ap, ◌∙◌, true, false, some, List, [], ◌∷◌, ◌++◌, map,
  length, arith, append_assoc, append-nil,
}
use remote_dict.Text.{Text, bytes}
use remote_dict.Helper.{trim, is_whitespace}
use remote_dict.Helper.Trim.{Blank, StartsBare, EndsBare, trim_padded}
use remote_dict.Client.{Message, MessageType}
use remote_dict.TestClient.Input.{
  comma, tokens, until_nul, line_fields, parse_line, parse_fields, get_message, set_message,
  case_insens_string_compare,
}

-- No zero byte and no comma.
abbrev pub Plain : Text → Type 0
Plain [] = Unit
Plain (c ∷ s) = (c ≢ 0) × (c ≢ comma) × Plain s

-- A field as it may stand in the file.
pub record IsField (s : Text) : Type 0 where
  pub nonempty : 0 < length s
  pub plain : Plain s
  pub starts : StartsBare s
  pub ends : EndsBare s

-- Raw fields, joined by commas.
pub join : Text → List Text → Text
join f [] = f
join f (g ∷ gs) = f ++ (comma ∷ join g gs)

abbrev pub AllPlain : List Text → Type 0
AllPlain [] = Unit
AllPlain (f ∷ fs) = (0 < length f) × Plain f × AllPlain fs

tokens-last :
    (s : Text) (t : ℕ) (token : Text) → Plain s → tokens s (t ∷ token) ≡ ((t ∷ token) ++ s) ∷ []
unfolding tokens
tokens-last [] t token p = rw append-nil refl
tokens-last (c ∷ s) t token p =
    ground (arith, tokens-last s t (token ++ (c ∷ [])) p.2, append_assoc token (c ∷ []) s)

tokens-comma :
    (s : Text) (t : ℕ) (token rest : Text)
    → Plain s
    → tokens (s ++ (comma ∷ rest)) (t ∷ token) ≡ ((t ∷ token) ++ s) ∷ tokens rest []
unfolding tokens
tokens-comma [] t token rest p = rw append-nil refl
tokens-comma (c ∷ s) t token rest p =
    ground (arith, tokens-comma s t (token ++ (c ∷ [])) rest p.2, append_assoc token (c ∷ []) s)

-- The tokens of a joined line are its fields.
pub tokens-join : (f : Text) (fs : List Text) → AllPlain (f ∷ fs) → tokens (join f fs) [] ≡ f ∷ fs
unfolding join tokens
tokens-join [] fs p = absurd (omega arith)
tokens-join (c ∷ f) [] p = ground (arith, tokens-last f c [] p.1.2)
tokens-join (c ∷ f) (g ∷ gs) p =
    ground (arith, tokens-comma f c [] (join g gs) p.1.2, tokens-join g gs p.2)

until_nul-Plain : (f rest : Text) → Plain f → until_nul (f ++ rest) ≡ f ++ until_nul rest
unfolding until_nul
until_nul-Plain [] rest p = refl
until_nul-Plain (c ∷ f) rest p = ground (arith, until_nul-Plain f rest p.2)

until_nul-join : (f : Text) (fs : List Text) → AllPlain (f ∷ fs) → until_nul (join f fs) ≡ join f fs
unfolding join until_nul
until_nul-join f [] p = ap until_nul (sym (append-nil f)) ∙ until_nul-Plain f [] p.1 ∙ append-nil f
until_nul-join f (g ∷ gs) p =
    until_nul-Plain f (comma ∷ join g gs) p.1 ∙ ap (λ t. f ++ (comma ∷ t)) (until_nul-join g gs p.2)

blank-ne : (c : ℕ) → is_whitespace c ≡ true → c ≢ 0
unfolding is_whitespace
blank-ne c h = ground arith

blank-ne_comma : (c : ℕ) → is_whitespace c ≡ true → c ≢ comma
unfolding is_whitespace
blank-ne_comma c h = ground arith

Plain-append : (s t : Text) → Plain s → Plain t → Plain (s ++ t)
Plain-append [] t p q = q
Plain-append (c ∷ s) t p q = (p.0, p.1, Plain-append s t p.2 q)

Plain-Blank : (s : Text) → Blank s → Plain s
Plain-Blank [] b = tt
Plain-Blank (c ∷ s) b = (blank-ne c b.0, blank-ne_comma c b.0, Plain-Blank s b.1)

-- A field with the white space in front of it.
pub record Padded : Type 0 where
  pub before : Text
  pub field : Text
  pub blank : Blank before
  pub is_field : IsField field

abbrev pub raw : Padded → Text
raw p = p.before ++ p.field

raws-AllPlain : (ps : List Padded) → AllPlain (map raw ps)
raws-AllPlain [] = tt
raws-AllPlain (p ∷ ps) = (
  omega (arith, length-append p.before p.field, p.is_field.nonempty),
  Plain-append p.before p.field (Plain-Blank p.before p.blank) p.is_field.plain,
  raws-AllPlain ps,
)

trim-raws : (ps : List Padded) → map trim (map raw ps) ≡ map (λ p. p.field) ps
trim-raws [] = refl
trim-raws (p ∷ ps) =
    ap₂ ◌∷◌ (trim_padded p.before p.field p.blank p.is_field.starts p.is_field.ends) (trim-raws ps)

pub line_fields-join :
    (p : Padded) (ps : List Padded)
    → line_fields (join (raw p) (map raw ps)) ≡ map (λ q. q.field) (p ∷ ps)
unfolding line_fields
line_fields-join p ps =
    let plain : AllPlain (map raw (p ∷ ps)) = raws-AllPlain (p ∷ ps) in
    ap (λ t. map trim (tokens t [])) (until_nul-join (raw p) (map raw ps) plain)
    ∙ ap (map trim) (tokens-join (raw p) (map raw ps) plain)
    ∙ trim-raws (p ∷ ps)

-- The verbs exclude one another.
set-ne-get :
    (v : Text)
    → case_insens_string_compare v (bytes "SET") ≡ true
    → case_insens_string_compare v (bytes "GET") ≡ false
unfolding case_insens_string_compare
set-ne-get [] h = cc
set-ne-get (a ∷ v) h = ground arith

stat-ne :
    (v : Text)
    → case_insens_string_compare v (bytes "STAT") ≡ true
    → (case_insens_string_compare v (bytes "GET") ≡ false)
      × (case_insens_string_compare v (bytes "SET") ≡ false)
unfolding case_insens_string_compare
stat-ne v h = ground arith

-- The verb of a type of request, and the operands that it stands before.
abbrev pub verb_of : MessageType → Text
verb_of MessageType.get = bytes "GET"
verb_of MessageType.set = bytes "SET"
verb_of MessageType.stat = bytes "STAT"

abbrev pub operands : MessageType → Padded → Padded → List Padded
operands MessageType.get key value = key ∷ []
operands MessageType.set key value = key ∷ value ∷ []
operands MessageType.stat key value = []

abbrev pub request_of : MessageType → Padded → Padded → Message
request_of type key value = record {
  type = some type;
  key = elim type [ MessageType.stat ↦ [] | _ ↦ key.field ];
  value = elim type [ MessageType.set ↦ value.field | _ ↦ [] ];
}

-- A line of a verb, in capitals or not, and its operands between commas, where each field is as it
-- may stand in the file and has only white space in front of it, is read as the request that it
-- writes.
pub parse_line-request :
    (type : MessageType) (verb key value : Padded)
    → case_insens_string_compare verb.field (verb_of type) ≡ true
    → parse_line (join (raw verb) (map raw (operands type key value))) ≡ request_of type key value
unfolding parse_line parse_fields get_message set_message
parse_line-request MessageType.get verb key value g = rw (line_fields-join verb (key ∷ []), g) refl
parse_line-request MessageType.set verb key value s =
    rw (line_fields-join verb (key ∷ value ∷ []), s, set-ne-get verb.field s) refl
parse_line-request MessageType.stat verb key value s =
    let (g, t) = stat-ne verb.field s in rw (line_fields-join verb [], g, t, s) refl
