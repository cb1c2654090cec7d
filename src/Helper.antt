-- ===== src/Helper.antt =====
-- util/include/Helper.h: the trimming of strings. (`setnonblock` is in Listener.antt.)
pub mod Trim
use remote_dict.Prelude.{
  ℕ, zero, suc, ◌+◌, Bool, true, false, ◌||◌, Option, none, some, List, [], ◌∷◌, take, drop, ◌==◌,
  if◌then◌else◌,
}
use remote_dict.Text.{Text}

-- WHITESPACE is " \n\r\t\f\v".
unfoldable pub is_whitespace : ℕ → Bool
is_whitespace c = c == 32 || c == 10 || c == 13 || c == 9 || c == 12 || c == 11

-- The index of the first character that is not in WHITESPACE, `none` for npos.
unfoldable pub find_first_not_of : Text → Option ℕ
unfolding is_whitespace
find_first_not_of [] = none
find_first_not_of (c ∷ s) =
    if is_whitespace c
    then (elim (find_first_not_of s) [ none ↦ none | some i ↦ some (suc i) ])
    else some 0

unfoldable pub find_last_not_of : Text → Option ℕ
unfolding is_whitespace
find_last_not_of [] = none
find_last_not_of (c ∷ s) = elim (find_last_not_of s) [
  | some i ↦ some (suc i)
  | none ↦ if is_whitespace c then none else some 0
]

unfoldable pub ltrim : Text → Text
unfolding find_first_not_of
ltrim s = elim (find_first_not_of s) [ none ↦ [] | some start ↦ drop start s ]

unfoldable pub rtrim : Text → Text
unfolding find_last_not_of
rtrim s = elim (find_last_not_of s) [ none ↦ [] | some last ↦ take (last + 1) s ]

unfoldable pub trim : Text → Text
unfolding ltrim rtrim
trim s = rtrim (ltrim s)
