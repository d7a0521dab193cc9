-- ===== src/Greylist/Endpoint/Solved.antt =====
-- What a client that solved the challenge gets, and what it is worth.
use hotchkiss_io.Base.{
  All, All-append, All-map, Bool, Bool-cases, List, [], ap, append-nil, arith, false, inl, inr, leb,
  ltb, none, not, refl, some, sym, true, ℕ, ◌%◌, ◌&&◌, ◌++◌, ◌-◌, ◌/◌, ◌<◌, ◌==◌, ◌>>=◌, ◌^◌, ◌∙◌,
  ◌∷◌, ◌≡◌,
}
use hotchkiss_io.Text.{
  Text, codes, is_ascii_digit, is_whitespace, push_head, split, strip_prefix, trim,
  trim_end_matches, trim_start_matches,
}
use hotchkiss_io.Text.Laws.{split-append, split_whole, strip_prefix-append}
use hotchkiss_io.Text.Trim.{trim_of_black}
use hotchkiss_io.Fallible.{Fallible, done, failed}
use hotchkiss_io.Session.{Request, SessionData}
use hotchkiss_io.Int64.{i64_bytes, i64_lt, i64_print}
use hotchkiss_io.Greylist.Toll.{
  clearance_cookie_name, cookie_of_part, cookie_value, find_cookie, greylist_challenge, is_cleared,
  passes,
}
use hotchkiss_io.Greylist.Challenge.{hex_digit, mint_clearance, to_hex}
use hotchkiss_io.Greylist.ActiveSet.{GreylistSet}
use hotchkiss_io.Text.Decimal.{print, print-All}
use hotchkiss_io.Greylist.Challenge.Clearance.{verify_clearance-mint}
use hotchkiss_io.Greylist.Toll.Order.{greylist_challenge-decides}

-- A character that a clearance is made of.
abbrev plain : ℕ → Bool
plain c = leb 45 c && (leb c 122 && not (c == 59))

abbrev IsPlain : Text → Type 0
IsPlain = All (λ c. plain c ≡ true)

plain_is_black : (c : ℕ) → plain c ≡ true → is_whitespace c ≡ false
unfolding is_whitespace
plain_is_black c h = ground arith

digit_is_plain : (c : ℕ) → is_ascii_digit c ≡ true → plain c ≡ true
unfolding is_ascii_digit
digit_is_plain c h = ground arith

i64_print-IsPlain : (x : ℕ) → IsPlain (i64_print x)
unfolding i64_print
i64_print-IsPlain x = elim (Bool-cases (ltb x (2 ^ 63))) [
  | inl y ↦ rw y (All-map _ _ digit_is_plain (print x) (print-All x))
  | inr n ↦ rw n (refl, All-map _ _ digit_is_plain (print (2 ^ 64 - x)) (print-All (2 ^ 64 - x)))
]

hex_digit_is_plain : (d : ℕ) → d < 16 → plain (hex_digit d) ≡ true
unfolding hex_digit
hex_digit_is_plain d h = ground arith

to_hex-IsPlain : (bytes : List ℕ) → All (λ b. b < 256) bytes → IsPlain (to_hex bytes)
unfolding to_hex
to_hex-IsPlain [] a = tt
to_hex-IsPlain (b ∷ bytes) (h, a) = (
  hex_digit_is_plain (b / 16) (omega arith),
  (hex_digit_is_plain (b % 16) (omega arith), to_hex-IsPlain bytes a),
)

abbrev token_of : ℕ → List ℕ → Text
token_of expiry mac = i64_print expiry ++ (b'.' ∷ to_hex mac)

token_of-IsPlain :
    (expiry : ℕ) (mac : List ℕ) → All (λ b. b < 256) mac → IsPlain (token_of expiry mac)
token_of-IsPlain expiry mac a =
    All-append _ (i64_print expiry) (b'.' ∷ to_hex mac) (i64_print-IsPlain expiry)
      (refl, to_hex-IsPlain mac a)

name-IsPlain : IsPlain (clearance_cookie_name ++ codes "=")
name-IsPlain = (refl, (refl, (refl, (refl, (refl, (refl, (refl, (refl, (refl, tt)))))))))

cookie_of_part_plain :
    (token : Text)
    → IsPlain (clearance_cookie_name ++ (codes "=" ++ token))
    → cookie_of_part clearance_cookie_name (clearance_cookie_name ++ (codes "=" ++ token))
      ≡ some token
unfolding cookie_of_part
cookie_of_part_plain token p =
    let raw : Text = clearance_cookie_name ++ (codes "=" ++ token) in
    rw (trim_of_black raw (All-map _ _ plain_is_black raw p)) (
      rw (strip_prefix-append clearance_cookie_name (codes "=" ++ token))
        (strip_prefix-append (codes "=") token))

strip_prefix_of_append :
    (a b s : Text) → strip_prefix (a ++ b) s ≡ (strip_prefix a s >>= strip_prefix b)
unfolding strip_prefix
strip_prefix_of_append [] b s = refl
strip_prefix_of_append (p ∷ a) b [] = refl
strip_prefix_of_append (p ∷ a) b (c ∷ s) = elim (Bool-cases (p == c)) [
  | inl y ↦ rw y (strip_prefix_of_append a b s)
  | inr n ↦ rw n refl
]

-- A cookie of another name, as it may stand in front of the clearance.
abbrev pub IsOther : Text → Type 0
IsOther part =
    All (λ c. (c == b';') ≡ false) part
    × (strip_prefix (clearance_cookie_name ++ codes "=") (trim part) ≡ none)

-- A `Cookie` header: the cookies in front, with the separator behind each, and those behind.
abbrev pub with_cookies : List Text → Text → Text
with_cookies [] rest = rest
with_cookies (c ∷ cs) rest = c ++ (codes "; " ++ with_cookies cs rest)

abbrev pub more_cookies : List Text → Text
more_cookies [] = []
more_cookies (c ∷ cs) = codes "; " ++ (c ++ more_cookies cs)

split_before_more :
    (s : Text) (after : List Text)
    → IsPlain s
    → (rest : List Text) × (split (λ c. c == b';') (s ++ more_cookies after) ≡ s ∷ rest)
split_before_more s [] a = (
  [],
  ap (split (λ c. c == b';')) (append-nil s)
      ∙ split_whole (λ d. d == b';') s (All-map _ _ (λ d p. ground arith) s a),
)
split_before_more s (c ∷ cs) a = (
  split (λ c. c == b';') (b' ' ∷ (c ++ more_cookies cs)),
  split-append (λ d. d == b';') s (b' ' ∷ (c ++ more_cookies cs)) b';'
      (All-map _ _ (λ d p. ground arith) s a) refl,
)

-- The space behind a separator is trimmed off.
find_cookie-spaced :
    (parts : List Text)
    → find_cookie clearance_cookie_name (push_head b' ' parts)
      ≡ find_cookie clearance_cookie_name parts
unfolding find_cookie cookie_of_part trim trim_start_matches trim_end_matches is_whitespace
    strip_prefix
find_cookie-spaced [] = refl
find_cookie-spaced (p ∷ parts) = refl

find_cookie-here :
    (part v : Text) (parts : List Text)
    → cookie_of_part clearance_cookie_name part ≡ some v
    → find_cookie clearance_cookie_name (part ∷ parts) ≡ some v
unfolding find_cookie
find_cookie-here part v parts e = rw (e, find_cookie) refl

find_cookie-other :
    (part : Text) (parts : List Text)
    → IsOther part
    → find_cookie clearance_cookie_name (part ∷ parts) ≡ find_cookie clearance_cookie_name parts
unfolding find_cookie cookie_of_part
find_cookie-other part parts (_, unnamed) =
    let missing : cookie_of_part clearance_cookie_name part ≡ none =
      sym (strip_prefix_of_append clearance_cookie_name (codes "=") (trim part)) ∙ unnamed in
    rw (missing, find_cookie) refl

find_cookie-among :
    (before after : List Text) (token : Text)
    → All IsOther before
    → IsPlain (clearance_cookie_name ++ (codes "=" ++ token))
    → find_cookie clearance_cookie_name (
        split
          (λ c. c == b';')
          (with_cookies before
            ((clearance_cookie_name ++ (codes "=" ++ token)) ++ more_cookies after)))
      ≡ some token
find_cookie-among [] after token o p =
    let raw : Text = clearance_cookie_name ++ (codes "=" ++ token) in
    let (rest, e) = split_before_more raw after p in
    ap (find_cookie clearance_cookie_name) e
    ∙ find_cookie-here raw token rest (cookie_of_part_plain token p)
find_cookie-among (c ∷ cs) after token (o, os) p =
    let rest : Text =
      with_cookies cs ((clearance_cookie_name ++ (codes "=" ++ token)) ++ more_cookies after) in
    ap (find_cookie clearance_cookie_name)
      (split-append (λ d. d == b';') c (b' ' ∷ rest) b';' o.0 refl)
    ∙ (find_cookie-other c (split (λ d. d == b';') (b' ' ∷ rest)) o
        ∙ (ap (find_cookie clearance_cookie_name) (split_spaced rest)
            ∙ (find_cookie-spaced (split (λ d. d == b';') rest)
                ∙ find_cookie-among cs after token os p)))
  where
    split_spaced :
        (s : Text) → split (λ d. d == b';') (b' ' ∷ s) ≡ push_head b' ' (split (λ d. d == b';') s)
    split_spaced s = unfold split in refl

-- A header with the clearance among its cookies holds its token.
cookie_value_of_plain :
    {W : Type 0} (req : Request W) (before after : List Text) (token : Text)
    → All IsOther before
    → IsPlain token
    → req.cookie
      ≡ some (
          with_cookies before
            ((clearance_cookie_name ++ (codes "=" ++ token)) ++ more_cookies after))
    → cookie_value req clearance_cookie_name ≡ some token
unfolding cookie_value
cookie_value_of_plain req before after token o a e = rw e (
    find_cookie-among before after token o
      (All-append _ (clearance_cookie_name ++ codes "=") token name-IsPlain a))

module _ (hmac : List ℕ → List ℕ → Fallible (List ℕ)) where
  minted :
      (key : List ℕ) (expiry : ℕ) (token : Text)
      → mint_clearance hmac key expiry ≡ done token
      → (mac : List ℕ) × (hmac key (i64_bytes expiry) ≡ done mac) × (token ≡ token_of expiry mac)
  unfolding mint_clearance
  minted key expiry token h = of_mac (hmac key (i64_bytes expiry)) refl h
    where
      of_mac :
          (f : Fallible (List ℕ))
          → hmac key (i64_bytes expiry) ≡ f
          → elim f [ failed ↦ failed | done m ↦ done (i64_print expiry ++ (codes "." ++ to_hex m)) ]
            ≡ done token
          → (mac : List ℕ) × (hmac key (i64_bytes expiry) ≡ done mac)
            × (token ≡ token_of expiry mac)
      of_mac failed e h = absurd (cc h)
      of_mac (done m) e h = (m, e, cc)

  -- If the MAC answers with bytes, a request whose cookie header holds the clearance's name with a
  -- token that the server minted, behind cookies of other names and before any, passes the toll at
  -- any time before the token's expiry, an `i64`.
  pub minted_clearance_passes :
      {W : Type 0} (key : List ℕ) (expiry now : ℕ) (token : Text) (greylist : GreylistSet)
      (session : SessionData W) (req : Request W) (before after : List Text)
      → ((k m mac : List ℕ) → hmac k m ≡ done mac → All (λ b. b < 256) mac)
      → expiry < 2 ^ 64
      → mint_clearance hmac key expiry ≡ done token
      → All IsOther before
      → req.cookie
        ≡ some (
            with_cookies before
              ((clearance_cookie_name ++ (codes "=" ++ token)) ++ more_cookies after))
      → i64_lt now expiry ≡ true
      → greylist_challenge hmac greylist key now session req ≡ passes
  unfolding is_cleared
  minted_clearance_passes key expiry now token greylist session req before after bytes range m o c
        live =
      let (mac, e, t) = minted key expiry token m in
      let held : cookie_value req clearance_cookie_name ≡ some token =
        cookie_value_of_plain req before after token o
          (rw t (token_of-IsPlain expiry mac (bytes key _ mac e))) c in
      let y : is_cleared hmac key now req ≡ true =
        rw (held, is_cleared)
          (verify_clearance-mint hmac key mac expiry now token range e (bytes key _ mac e) m
            ∙ live) in
      elim (greylist_challenge-decides hmac greylist key now session req) [
        | inl (_, p) ↦ p
        | inr (n, _) ↦ absurd (n (inr (inr (inr y))))
      ]
