-- ===== src/ServerMain/Arguments.antt =====
-- The loop over the options of `main` (server/src/main.cpp) beside a reading of the options that
-- looks for the last of each.
use mathlib.Core.Option.{some-injective}
use remote_dict.Prelude.{
  subst, ◌∙◌, >>=-eq-some, ◌≡◌, refl, Bool, true, false, Option, none, some, List, [], ◌∷◌, ℤ,
  arith, Option-cases, inl, inr,
}
use remote_dict.Text.{Text}
use remote_dict.Options.{
  Choice, help, unknown, thread, dest_ip, port, special, Parsed, refused, parsed, atoi,
}
use remote_dict.ServerMain.{Settings, parse_options}

abbrev pub thread_of : Choice → Option Text
thread_of (thread t) = some t
thread_of _ = none

abbrev pub dest_ip_of : Choice → Option Text
dest_ip_of (dest_ip t) = some t
dest_ip_of _ = none

abbrev pub port_of : Choice → Option Text
port_of (port t) = some t
port_of _ = none

abbrev pub special_of : Choice → Option Text
special_of (special t) = some t
special_of _ = none

-- The argument of the last option of a kind.
unfoldable pub last_of : (Choice → Option Text) → List Choice → Option Text
last_of kind [] = none
last_of kind (c ∷ cs) = elim (last_of kind cs) [ some t ↦ some t | none ↦ kind c ]

abbrev pub text_or : Text → Option Text → Text
text_or before none = before
text_or before (some t) = t

-- `atoi` of the argument, if there is one.
abbrev pub value_or : ℤ → Option Text → Option ℤ
value_or before none = some before
value_or before (some t) = atoi t

unfoldable pub has_unknown : List Choice → Bool
has_unknown [] = false
has_unknown (unknown ∷ cs) = true
has_unknown (_ ∷ cs) = has_unknown cs

-- What the options say of a result of the loop.
abbrev pub Explains : List Choice → Settings → Parsed Settings → Type 0
Explains cs st refused = has_unknown cs ≡ true
Explains cs st (parsed st') =
    (has_unknown cs ≡ false)
    × (st'.host ≡ text_or st.host (last_of dest_ip_of cs))
    × (value_or st.num_thread (last_of thread_of cs) ≡ some st'.num_thread)
    × (value_or st.port_number (last_of port_of cs) ≡ some st'.port_number)
    × (value_or st.bloom_filter (last_of special_of cs) ≡ some st'.bloom_filter)

-- An option of another kind does not count.
last_of-other :
    (kind : Choice → Option Text) (c : Choice) (cs : List Choice)
    → kind c ≡ none
    → last_of kind (c ∷ cs) ≡ last_of kind cs
unfolding last_of
last_of-other kind c cs e = elim (Option-cases (last_of kind cs)) [
  | inl e' ↦ rw (e', e) refl
  | inr (t, e') ↦ rw e' refl
]

-- The last option of a kind counts, behind one that gives `now`.
value_or-last :
    (kind : Choice → Option Text) (c : Choice) (cs : List Choice) (before now : ℤ) (t : Text)
    (v : ℤ)
    → kind c ≡ some t
    → atoi t ≡ some now
    → value_or now (last_of kind cs) ≡ some v
    → value_or before (last_of kind (c ∷ cs)) ≡ some v
unfolding last_of
value_or-last kind c cs before now t v e a h = ground (arith, Option-cases (last_of kind cs))

text_or-last :
    (cs : List Choice) (before t : Text)
    → text_or t (last_of dest_ip_of cs) ≡ text_or before (last_of dest_ip_of (dest_ip t ∷ cs))
unfolding last_of
text_or-last cs before t = ground (arith, Option-cases (last_of dest_ip_of cs))

Explains-help :
    (cs : List Choice) (st : Settings) (r : Parsed Settings)
    → Explains cs st r
    → Explains (help ∷ cs) st r
unfolding has_unknown
Explains-help cs st refused h = h
Explains-help cs st (parsed st') (known, ip, threads, number, filter) =
    rw
      (
        last_of-other dest_ip_of help cs refl,
        last_of-other thread_of help cs refl,
        last_of-other port_of help cs refl,
        last_of-other special_of help cs refl,
      )
      (known, ip, threads, number, filter)

Explains-thread :
    (t : Text) (n : ℤ) (cs : List Choice) (st : Settings) (r : Parsed Settings)
    → atoi t ≡ some n
    → Explains cs (record st { num_thread = n }) r
    → Explains (thread t ∷ cs) st r
unfolding has_unknown
Explains-thread t n cs st refused e h = h
Explains-thread t n cs st (parsed st') e (known, ip, threads, number, filter) =
    rw
      (
        last_of-other dest_ip_of (thread t) cs refl,
        last_of-other port_of (thread t) cs refl,
        last_of-other special_of (thread t) cs refl,
      )
      (
        known,
        ip,
        value_or-last thread_of (thread t) cs st.num_thread n t _ refl e threads,
        number,
        filter,
      )

Explains-dest_ip :
    (t : Text) (cs : List Choice) (st : Settings) (r : Parsed Settings)
    → Explains cs (record st { host = t }) r
    → Explains (dest_ip t ∷ cs) st r
unfolding has_unknown
Explains-dest_ip t cs st refused h = h
Explains-dest_ip t cs st (parsed st') (known, ip, threads, number, filter) =
    rw
      (
        last_of-other thread_of (dest_ip t) cs refl,
        last_of-other port_of (dest_ip t) cs refl,
        last_of-other special_of (dest_ip t) cs refl,
      )
      (known, ip ∙ text_or-last cs st.host t, threads, number, filter)

Explains-port :
    (t : Text) (n : ℤ) (cs : List Choice) (st : Settings) (r : Parsed Settings)
    → atoi t ≡ some n
    → Explains cs (record st { port_number = n }) r
    → Explains (port t ∷ cs) st r
unfolding has_unknown
Explains-port t n cs st refused e h = h
Explains-port t n cs st (parsed st') e (known, ip, threads, number, filter) =
    rw
      (
        last_of-other dest_ip_of (port t) cs refl,
        last_of-other thread_of (port t) cs refl,
        last_of-other special_of (port t) cs refl,
      )
      (
        known,
        ip,
        threads,
        value_or-last port_of (port t) cs st.port_number n t _ refl e number,
        filter,
      )

Explains-special :
    (t : Text) (n : ℤ) (cs : List Choice) (st : Settings) (r : Parsed Settings)
    → atoi t ≡ some n
    → Explains cs (record st { bloom_filter = n }) r
    → Explains (special t ∷ cs) st r
unfolding has_unknown
Explains-special t n cs st refused e h = h
Explains-special t n cs st (parsed st') e (known, ip, threads, number, filter) =
    rw
      (
        last_of-other dest_ip_of (special t) cs refl,
        last_of-other thread_of (special t) cs refl,
        last_of-other port_of (special t) cs refl,
      )
      (
        known,
        ip,
        threads,
        number,
        value_or-last special_of (special t) cs st.bloom_filter n t _ refl e filter,
      )

nothing : (st : Settings) → Explains [] st (parsed st)
unfolding last_of has_unknown
nothing st = (refl, refl, refl, refl, refl)

refuses : (cs : List Choice) → has_unknown (unknown ∷ cs) ≡ true
unfolding has_unknown
refuses cs = refl

-- If the loop over the options ends, then it refuses them only for an option that it does not know,
-- and else it knows them all and each variable of `main` is what the last option of its kind gives,
-- or what it was.
pub parse_options_lem :
    (cs : List Choice) (st : Settings) (r : Parsed Settings)
    → parse_options cs st ≡ some r
    → Explains cs st r
unfolding parse_options
parse_options_lem [] st r h = subst (Explains [] st) (some-injective _ _ h) (nothing st)
parse_options_lem (help ∷ cs) st r h = Explains-help cs st r (parse_options_lem cs st r h)
parse_options_lem (unknown ∷ cs) st r h =
    subst (Explains (unknown ∷ cs) st) (some-injective _ _ h) (refuses cs)
parse_options_lem (thread t ∷ cs) st r h =
    let (n, e, h') = >>=-eq-some (atoi t) _ h in
    Explains-thread t n cs st r e (parse_options_lem cs _ r h')
parse_options_lem (dest_ip t ∷ cs) st r h = Explains-dest_ip t cs st r (parse_options_lem cs _ r h)
parse_options_lem (port t ∷ cs) st r h =
    let (n, e, h') = >>=-eq-some (atoi t) _ h in
    Explains-port t n cs st r e (parse_options_lem cs _ r h')
parse_options_lem (special t ∷ cs) st r h =
    let (n, e, h') = >>=-eq-some (atoi t) _ h in
    Explains-special t n cs st r e (parse_options_lem cs _ r h')
