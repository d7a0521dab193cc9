-- ===== src/Greylist/Challenge.antt =====
-- src/greylist/challenge.rs: the proof-of-work kernel. `sha256` (the sha2 crate) and `hmac` (the
-- openssl crate, which may fail) are parameters; a byte is a number.
pub mod Answer
pub mod Clearance
pub mod Digest
use hotchkiss_io.Base.{
  Bool, List, [], false, if◌then◌else◌, length, ltb, none, not, some, suc, take, zero, ℕ, ◌%◌, ◌&&◌,
  ◌++◌, ◌+◌, ◌-◌, ◌/◌, ◌==◌, ◌||◌, ◌∷◌,
}
use hotchkiss_io.Text.{Text, codes, same, split_once}
use hotchkiss_io.Text.Utf8.{as_bytes}
use hotchkiss_io.Fallible.{Fallible, done, failed}
use hotchkiss_io.Int64.{i64_bytes, i64_lt, i64_parse, i64_print, i64_sub, le_bytes}

abbrev pub freshness_window : ℕ
freshness_window = 120

abbrev zeros : ℕ → List ℕ
zeros zero = []
zeros (suc n) = 0 ∷ zeros n

abbrev pub chain_iv : List ℕ
chain_iv = zeros 32

unfoldable pub hex_digit : ℕ → ℕ
hex_digit d = if ltb d 10 then b'0' + d else b'a' + (d - 10)

unfoldable pub to_hex : List ℕ → Text
unfolding hex_digit
to_hex [] = []
to_hex (b ∷ bytes) = hex_digit (b / 16) ∷ hex_digit (b % 16) ∷ to_hex bytes

-- Equal lengths and equal bytes.
unfoldable pub ct_eq : List ℕ → List ℕ → Bool
ct_eq a b = length a == length b && same a b

module _ (sha256 : List ℕ → List ℕ) where
  -- `chunks_exact(4)` leaves out an incomplete last pixel. The loop pushes each hash on `store`.
  unfoldable pub chain : List ℕ → List ℕ → List (List ℕ) → List (List ℕ)
  chain (r ∷ g ∷ b ∷ a ∷ rgba) h store =
      let next = sha256 ((r ∷ g ∷ b ∷ a ∷ []) ++ h) in chain rgba next (store ++ next ∷ [])
  chain _ h store = store

  reversed : {A : Type 0} → List A → List A
  reversed [] = []
  reversed (x ∷ xs) = reversed xs ++ x ∷ []

  concatenated : List (List ℕ) → List ℕ
  concatenated [] = []
  concatenated (x ∷ xs) = x ++ concatenated xs

  unfoldable pub image_digest : List ℕ → List ℕ
  unfolding chain reversed concatenated
  image_digest rgba = sha256 (concatenated (reversed (chain rgba chain_iv [])))

  unfoldable pub version_tag : List ℕ → Text
  unfolding to_hex
  version_tag rgba = to_hex (take 6 (sha256 rgba))

pub record ChallengeParams : Type 0 where
  pub inner_seed : List ℕ
  pub ts : ℕ
  pub version : Text

-- What the seed is the MAC of.
unfoldable pub seed_message : ChallengeParams → List ℕ
unfolding as_bytes le_bytes
seed_message p = p.inner_seed ++ (i64_bytes p.ts ++ as_bytes p.version)

-- `p.ts > now || now - p.ts > window`, with the subtraction of `i64`.
unfoldable pub is_fresh : ℕ → ℕ → ℕ → Bool
is_fresh ts now window = not (i64_lt now ts || i64_lt window (i64_sub now ts))

module _ (hmac : List ℕ → List ℕ → Fallible (List ℕ)) where
  unfoldable pub derive_seed : List ℕ → ChallengeParams → Fallible (List ℕ)
  unfolding seed_message
  derive_seed server_key p = hmac server_key (seed_message p)

  unfoldable pub compute_answer : List ℕ → List ℕ → Fallible (List ℕ)
  compute_answer seed digest = hmac seed digest

  -- The answer expected for the parameters, and its comparison with the one submitted.
  expected_answer : List ℕ → ChallengeParams → List ℕ → Fallible (List ℕ)
  unfolding derive_seed compute_answer
  expected_answer server_key p digest = elim (derive_seed server_key p) [
    | failed ↦ failed
    | done seed ↦ compute_answer seed digest
  ]

  unfoldable pub verify_answer :
      List ℕ → ChallengeParams → List ℕ → List ℕ → (now window : ℕ) → Fallible Bool
  unfolding expected_answer is_fresh ct_eq
  verify_answer server_key p digest submitted_answer now window =
      if is_fresh p.ts now window
      then elim (expected_answer server_key p digest) [
        | failed ↦ failed
        | done expected ↦ done (ct_eq expected submitted_answer)
      ]
      else done false

  unfoldable pub mint_clearance : List ℕ → ℕ → Fallible Text
  unfolding to_hex
  mint_clearance server_key expiry = elim (hmac server_key (i64_bytes expiry)) [
    | failed ↦ failed
    | done mac ↦ done (i64_print expiry ++ (codes "." ++ to_hex mac))
  ]

  -- The rest of `verify_clearance`, from a claimed expiry that reads as an `i64`.
  check_mac : List ℕ → ℕ → Text → ℕ → Bool
  unfolding ct_eq to_hex
  check_mac server_key expiry mac_hex now =
      if i64_lt now expiry
      then elim (hmac server_key (i64_bytes expiry)) [
        | failed ↦ false
        | done expected ↦ ct_eq (as_bytes mac_hex) (to_hex expected)
      ]
      else false

  unfoldable pub verify_clearance : List ℕ → Text → ℕ → Bool
  unfolding check_mac split_once
  verify_clearance server_key token now = elim (split_once b'.' token) [
    | none ↦ false
    | some (exp_s, mac_hex) ↦ elim (i64_parse exp_s) [
      | none ↦ false
      | some expiry ↦ check_mac server_key expiry mac_hex now
    ]
  ]
