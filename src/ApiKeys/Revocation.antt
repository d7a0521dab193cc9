-- ===== src/ApiKeys/Revocation.antt =====
-- A revoked key stays dead, and nothing else about the keys changes.
use hotchkiss_io.Base.{
  All, Bool-cases, List, Option, Option-cases, [], any, arith, false, inl, inr, refl, some, true, ℕ,
  ◌==◌, ◌∷◌, ◌≡◌, ◌≢◌,
}
use hotchkiss_io.Text.{Text}
use hotchkiss_io.Users.{Uuid}
use hotchkiss_io.Fallible.{done}
use hotchkiss_io.ApiKeys.{
  ApiKeyRow, authenticate, find_live, is_revocable, purge_revoked, revoke, touch_last_used,
}

abbrev pub DistinctKeys : List ApiKeyRow → Type 0
DistinctKeys [] = Unit
DistinctKeys (k ∷ t) = All (λ j. j.id ≢ k.id) t × DistinctKeys t

find_live-ne :
    (t : List ApiKeyRow) (key_hash : Text) (key_id : ℕ) (uid : Uuid)
    → All (λ j. j.id ≢ key_id) t
    → find_live t key_hash ≢ some (uid, key_id)
unfolding find_live
find_live-ne [] h key_id uid f e = cc
find_live-ne (k ∷ t) h key_id uid f e = ground (arith, find_live-ne t h key_id uid f.1)

All-id-revoke :
    (t : List ApiKeyRow) (now key_id : ℕ) (user_id : Uuid) (j : ℕ)
    → All (λ k. k.id ≢ j) t
    → All (λ k. k.id ≢ j) (revoke t now key_id user_id).1
unfolding revoke
All-id-revoke [] now key_id user_id j f = tt
All-id-revoke (k ∷ t) now key_id user_id j f =
    (ground arith, All-id-revoke t now key_id user_id j f.1)

any_of_Fresh :
    (t : List ApiKeyRow) (key_id : ℕ) (user_id : Uuid)
    → All (λ j. j.id ≢ key_id) t
    → any (is_revocable key_id user_id) t ≡ false
any_of_Fresh [] key_id user_id f = refl
any_of_Fresh (k ∷ t) key_id user_id f = ground (arith, any_of_Fresh t key_id user_id f.1)

find_live-revoke :
    (t : List ApiKeyRow) (key_hash : Text) (now key_id : ℕ) (user_id uid : Uuid)
    → DistinctKeys t
    → (revoke t now key_id user_id).0 ≡ true
    → find_live (revoke t now key_id user_id).1 key_hash ≢ some (uid, key_id)
unfolding find_live revoke
find_live-revoke [] h now key_id user_id uid d y e = cc
find_live-revoke (k ∷ t) h now key_id user_id uid d y e = elim (Bool-cases (k.id == key_id)) [
  | inl here ↦
      let same_id : key_id ≡ k.id = ground arith in
      ground (
        arith,
        find_live-ne (revoke t now key_id user_id).1 h key_id uid
            (All-id-revoke t now key_id user_id key_id (rw same_id d.0)),
        any_of_Fresh t key_id user_id (rw same_id d.0),
      )
  | inr past ↦ ground (arith, find_live-revoke t h now key_id user_id uid d.1)
]

module _ (hash_key : Text → Option Text) where
  -- In a table of distinct ids, after a `revoke` that reports success, no presented text
  -- authenticates as the revoked key.
  pub authenticate-revoke :
      (t : List ApiKeyRow) (now key_id : ℕ) (user_id uid : Uuid) (presented : Text)
      → DistinctKeys t
      → (revoke t now key_id user_id).0 ≡ true
      → authenticate hash_key (revoke t now key_id user_id).1 presented ≢ done (some (uid, key_id))
  unfolding authenticate
  authenticate-revoke t now key_id user_id uid presented d y e =
      elim (Option-cases (hash_key presented)) [
        | inl broken ↦ ground (arith, broken)
        | inr (h, hashed) ↦ ground (arith, hashed, find_live-revoke t h now key_id user_id uid d y)
      ]

  find_live-purge :
      (t : List ApiKeyRow) (now : ℕ) (h : Text) → find_live (purge_revoked t now) h ≡ find_live t h
  unfolding find_live purge_revoked
  find_live-purge [] now h = refl
  find_live-purge (k ∷ t) now h = ground (arith, find_live-purge t now h)

  find_live-touch :
      (t : List ApiKeyRow) (now key_id : ℕ) (h : Text)
      → find_live (touch_last_used t now key_id) h ≡ find_live t h
  unfolding find_live touch_last_used
  find_live-touch [] now key_id h = refl
  find_live-touch (k ∷ t) now key_id h = ground (arith, find_live-touch t now key_id h)

  -- The daily purge and the stamp of the last use change nobody's authentication.
  pub authenticate-maintenance :
      (t : List ApiKeyRow) (now key_id : ℕ) (presented : Text)
      → (authenticate hash_key (purge_revoked t now) presented ≡ authenticate hash_key t presented)
        × (authenticate hash_key (touch_last_used t now key_id) presented
            ≡ authenticate hash_key t presented)
  unfolding authenticate
  authenticate-maintenance t now key_id presented = elim (Option-cases (hash_key presented)) [
    | inl broken ↦ ground (arith, broken)
    | inr (h, hashed) ↦
        ground (arith, hashed, find_live-purge t now h, find_live-touch t now key_id h)
  ]

-- A user who does not own the key revokes nothing: the answer is false and the table is unchanged.
pub revoke_not_owner :
    (t : List ApiKeyRow) (now key_id : ℕ) (user_id : Uuid)
    → All (λ k. (k.id ≡ key_id) → (k.user_id ≢ user_id)) t
    → revoke t now key_id user_id ≡ (false, t)
unfolding revoke
revoke_not_owner [] now key_id user_id f = refl
revoke_not_owner (k ∷ t) now key_id user_id f =
    ground (arith, revoke_not_owner t now key_id user_id f.1, f.0)
