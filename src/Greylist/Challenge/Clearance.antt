-- ===== src/Greylist/Challenge/Clearance.antt =====
-- The bearer clearance.
use mathlib.Core.Option
use hotchkiss_io.Base.{
  All, All-map, Bool-cases, List, Option, [], ap, arith, false, if◌then◌else◌, inl, inr, ltb, none,
  refl, some, subst, true, ℕ, ◌%◌, ◌++◌, ◌-◌, ◌/◌, ◌<◌, ◌==◌, ◌^◌, ◌∷◌, ◌≡◌,
}
use hotchkiss_io.Text.{Text, codes, is_ascii_digit, split_once}
use hotchkiss_io.Greylist.Challenge.{
  check_mac, ct_eq, hex_digit, mint_clearance, to_hex, verify_clearance,
}
use hotchkiss_io.Int64.{i64_bytes, i64_lt, i64_parse, i64_print}
use hotchkiss_io.Fallible.{Fallible, done, failed}
use hotchkiss_io.Text.Decimal.{print, print-All}
use hotchkiss_io.Int64.Laws.{i64_parse-print}
use hotchkiss_io.Text.Utf8.{as_bytes, as_bytes_ascii}
use hotchkiss_io.Greylist.Challenge.Answer.{ct_eq_iff}

-- The first dot splits a text after which no earlier dot stands.
pub split_once-append :
    (d : ℕ) (s t : Text) → All (λ c. (c == d) ≡ false) s → split_once d (s ++ (d ∷ t)) ≡ some (s, t)
unfolding split_once
split_once-append d [] t a = ground arith
split_once-append d (c ∷ s) t (n, a) = rw n (rw (split_once-append d s t a) refl)

later_split :
    (c : ℕ) (u v a b : Text)
    → ◌≡◌ {A = Option (Text × Text)} (some (c ∷ u, v)) (some (a, b))
    → (a ≡ c ∷ u) × (b ≡ v)
later_split c u v a b h = (cc, cc)

found_later :
    (d c : ℕ) (s a b : Text) (o : Option (Text × Text))
    → ((u v : Text) → o ≡ some (u, v) → s ≡ u ++ (d ∷ v))
    → Option.map {B = Text × Text} (λ p. (c ∷ p.0, p.1)) o ≡ some (a, b)
    → c ∷ s ≡ a ++ (d ∷ b)
found_later d c s a b none ih h = absurd (cc h)
found_later d c s a b (some (u, v)) ih h =
    let (p, q) = later_split c u v a b h in rw (p, q) (ap (◌∷◌ c) (ih u v refl))

pub split_once_sound : (d : ℕ) (s a b : Text) → split_once d s ≡ some (a, b) → s ≡ a ++ (d ∷ b)
unfolding split_once
split_once_sound d [] a b h = absurd (cc h)
split_once_sound d (c ∷ s) a b h = elim (Bool-cases (c == d)) [
  | inl y ↦ ground (arith, h, y)
  | inr n ↦ found_later d c s a b (split_once d s) (split_once_sound d s) (
      subst
        (λ t.
          (if t
            then some ([], s)
            else Option.map {B = Text × Text} (λ p. (c ∷ p.0, p.1)) (split_once d s))
          ≡ some (a, b))
        n h)
]

digit_is_no_dot : (c : ℕ) → is_ascii_digit c ≡ true → (c == b'.') ≡ false
unfolding is_ascii_digit
digit_is_no_dot c h = ground arith

-- A printed integer has no dot.
i64_print-no_dot : (x : ℕ) → All (λ c. (c == b'.') ≡ false) (i64_print x)
unfolding i64_print
i64_print-no_dot x = elim (Bool-cases (ltb x (2 ^ 63))) [
  | inl y ↦ rw y (All-map _ _ digit_is_no_dot (print x) (print-All x))
  | inr n ↦ rw n (refl, All-map _ _ digit_is_no_dot (print (2 ^ 64 - x)) (print-All (2 ^ 64 - x)))
]

hex_digit_ascii : (d : ℕ) → d < 16 → hex_digit d < 128
unfolding hex_digit
hex_digit_ascii d h = ground arith

to_hex_ascii : (bytes : List ℕ) → All (λ b. b < 256) bytes → All (λ c. c < 128) (to_hex bytes)
unfolding to_hex
to_hex_ascii [] a = tt
to_hex_ascii (b ∷ bytes) (h, a) = (
  hex_digit_ascii (b / 16) (omega arith),
  (hex_digit_ascii (b % 16) (omega arith), to_hex_ascii bytes a),
)

module _ (hmac : List ℕ → List ℕ → Fallible (List ℕ)) where
  check_mac_own :
      (server_key mac : List ℕ) (expiry now : ℕ)
      → hmac server_key (i64_bytes expiry) ≡ done mac
      → All (λ b. b < 256) mac
      → check_mac hmac server_key expiry (to_hex mac) now ≡ i64_lt now expiry
  unfolding check_mac
  check_mac_own server_key mac expiry now e small = elim (Bool-cases (i64_lt now expiry)) [
    | inl y ↦ rw y (
        rw (e, check_mac)
          (rw (as_bytes_ascii (to_hex mac) (to_hex_ascii mac small))
            ((ct_eq_iff (to_hex mac) (to_hex mac)).1 refl)))
    | inr n ↦ rw n refl
  ]

  -- A clearance is good exactly until the expiry it was minted with: before that it is accepted
  -- under the same key, from then on it is refused. The MAC answers with bytes.
  pub verify_clearance-mint :
      (server_key mac : List ℕ) (expiry now : ℕ) (token : Text)
      → expiry < 2 ^ 64
      → hmac server_key (i64_bytes expiry) ≡ done mac
      → All (λ b. b < 256) mac
      → mint_clearance hmac server_key expiry ≡ done token
      → verify_clearance hmac server_key token now ≡ i64_lt now expiry
  unfolding verify_clearance mint_clearance
  verify_clearance-mint server_key mac expiry now token range e small h =
      let text : Text = i64_print expiry ++ (codes "." ++ to_hex mac) in
      let minted : done text ≡ done token =
        subst
          (λ f.
            elim f [ failed ↦ failed | done m ↦ done (i64_print expiry ++ (codes "." ++ to_hex m)) ]
            ≡ done token)
          e h in
      let same_text : token ≡ text = cc in
      rw same_text (
        rw
          (
            split_once-append b'.' (i64_print expiry) (to_hex mac) (i64_print-no_dot expiry),
            verify_clearance,
          )
          (rw (i64_parse-print expiry range) (check_mac_own server_key mac expiry now e small)))

  -- What an accepted token is: an expiry that has not passed and, behind the first dot, the MAC of
  -- that very expiry in hexadecimal digits.
  abbrev pub IsClearance : List ℕ → Text → ℕ → Type 0
  IsClearance server_key token now =
      (exp_s mac_hex : Text) × (expiry : ℕ) × (mac : List ℕ) × (token ≡ exp_s ++ (b'.' ∷ mac_hex))
      × (i64_parse exp_s ≡ some expiry)
      × (i64_lt now expiry ≡ true)
      × (hmac server_key (i64_bytes expiry) ≡ done mac)
      × (as_bytes mac_hex ≡ to_hex mac)

  check_mac_sound :
      (server_key : List ℕ) (expiry now : ℕ) (mac_hex : Text) (f : Fallible (List ℕ))
      → hmac server_key (i64_bytes expiry) ≡ f
      → (if i64_lt now expiry
          then elim f [
            | failed ↦ false
            | done expected ↦ ct_eq (as_bytes mac_hex) (to_hex expected)
          ]
          else false)
        ≡ true
      → (i64_lt now expiry ≡ true)
        × ((mac : List ℕ) × (hmac server_key (i64_bytes expiry) ≡ done mac)
            × (as_bytes mac_hex ≡ to_hex mac))
  check_mac_sound server_key expiry now mac_hex failed e h = absurd (ground arith)
  check_mac_sound server_key expiry now mac_hex (done mac) e h =
      (ground arith, (mac, e, (ct_eq_iff (as_bytes mac_hex) (to_hex mac)).0 (ground arith)))

  -- Every token that is accepted is a text that reads as an expiry still to come, a dot, and
  -- the MAC of that very expiry in hexadecimal digits.
  pub verify_clearance_sound :
      (server_key : List ℕ) (token : Text) (now : ℕ)
      → verify_clearance hmac server_key token now ≡ true
      → IsClearance server_key token now
  unfolding verify_clearance check_mac
  verify_clearance_sound server_key token now h = pieces (split_once b'.' token) refl h
    where
      parsed :
          (exp_s mac_hex : Text) (o : Option ℕ)
          → token ≡ exp_s ++ (b'.' ∷ mac_hex)
          → i64_parse exp_s ≡ o
          → elim o [ none ↦ false | some expiry ↦ check_mac hmac server_key expiry mac_hex now ]
            ≡ true
          → IsClearance server_key token now
      parsed exp_s mac_hex none t e h = absurd (cc h)
      parsed exp_s mac_hex (some expiry) t e h =
          let (later, (mac, m, x)) =
            check_mac_sound server_key expiry now mac_hex (hmac server_key (i64_bytes expiry)) refl
              h in
          (exp_s, mac_hex, expiry, mac, t, e, later, m, x)

      pieces :
          (o : Option (Text × Text))
          → split_once b'.' token ≡ o
          → elim o [
            | none ↦ false
            | some (exp_s, mac_hex) ↦ elim (i64_parse exp_s) [
              | none ↦ false
              | some expiry ↦ check_mac hmac server_key expiry mac_hex now
            ]
          ]
            ≡ true
          → IsClearance server_key token now
      pieces none e h = absurd (cc h)
      pieces (some (exp_s, mac_hex)) e h =
          parsed exp_s mac_hex (i64_parse exp_s) (split_once_sound b'.' token exp_s mac_hex e) refl
            h
