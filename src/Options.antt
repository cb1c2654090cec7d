-- ===== src/Options.antt =====
-- What both programs read of their command line (server/src/main.cpp, client/src/TestClient.cpp):
-- `atoi`, and the options as `getopt_long` gives them, one after the other.
use remote_dict.Prelude.{
  ℕ, zero, suc, true, false, ◌+◌, ◌-◌, ◌*◌, ◌^◌, Bool, ◌&&◌, ◌||◌, Option, none, some, [], ◌∷◌, leb,
  ltb, ◌==◌, if◌then◌else◌, ℤ, pos, negsuc,
}
use remote_dict.Text.{Text}

-- `isspace` in the C locale.
abbrev pub is_space : ℕ → Bool
is_space c = c == 32 || leb 9 c && leb c 13

abbrev pub is_digit : ℕ → Bool
is_digit c = leb b'0' c && leb c b'9'

-- The value of the digits at the front, behind those that make up `value`.
unfoldable pub digits_value : Text → ℕ → ℕ
digits_value [] value = value
digits_value (c ∷ s) value =
    let more = digits_value s (value * 10 + (c - b'0')) in if is_digit c then more else value

unfoldable pub negated : ℕ → ℤ
negated zero = pos 0
negated (suc n) = negsuc n

unfoldable pub skip_spaces : Text → Text
skip_spaces [] = []
skip_spaces (c ∷ s) = let rest = skip_spaces s in if is_space c then rest else c ∷ s

-- `none` is a value that `int` does not hold, for which the behaviour of `atoi` is undefined.
unfoldable pub int_of : Bool → ℕ → Option ℤ
unfolding negated
int_of minus n =
    if minus
    then (if leb n (2 ^ 31) then some (negated n) else none)
    else (if ltb n (2 ^ 31) then some (pos n) else none)

unfoldable pub signed_value : Text → Option ℤ
unfolding int_of digits_value
signed_value [] = some (pos 0)
signed_value (c ∷ s) =
    if c == b'-'
    then int_of true (digits_value s 0)
    else if c == b'+'
    then int_of false (digits_value s 0)
    else int_of false (digits_value (c ∷ s) 0)

unfoldable pub atoi : Text → Option ℤ
unfolding skip_spaces signed_value
atoi s = signed_value (skip_spaces s)

-- A result of `getopt_long`: an option of `short_options` with its argument, or '?'. The last
-- option is -b for the server and -f for the client.
pub data Choice : Type 0 where
  help unknown : Choice
  thread dest_ip port special : Text → Choice

-- The loop over the options ends the program, or leaves the settings.
pub data Parsed {ℓ} (S : Type ℓ) : Type ℓ where
  refused : Parsed S
  parsed : S → Parsed S
