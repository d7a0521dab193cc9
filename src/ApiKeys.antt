-- ===== src/ApiKeys.antt =====
-- src/db/dao/api_keys.rs: the `api_keys` table and the life of a key. A time is in seconds since
-- the epoch. The HMAC under the server's pepper is a parameter that may fail.
pub mod Revocation
use Prim.Native.Nat.{max}
use hotchkiss_io.Base.{
  Bool, List, Option, [], any, false, filter, if◌then◌else◌, is_some, ltb, map, none, not, some, ℕ,
  ◌&&◌, ◌*◌, ◌++◌, ◌+◌, ◌==◌, ◌||◌, ◌∷◌,
}
use hotchkiss_io.Text.{Text, same}
use hotchkiss_io.Fallible.{Fallible, done, failed}
use hotchkiss_io.Users.{Uuid}

-- A row of the table, with the hash that `ApiKeyDao` leaves out.
pub record ApiKeyRow : Type 0 where
  pub id : ℕ
  pub user_id : Uuid
  pub key_hash : Text
  pub label : Text
  pub created_at : ℕ
  pub last_used_at : Option ℕ
  pub revoked_at : Option ℕ

abbrev pub revoked_retention_secs : ℕ
revoked_retention_secs = 7 * 86400

-- `revoked_at IS NULL`
abbrev pub is_live : ApiKeyRow → Bool
is_live k = not (is_some k.revoked_at)

-- `WHERE key_hash = ?1 AND revoked_at IS NULL`
unfoldable pub find_live : List ApiKeyRow → Text → Option (Uuid × ℕ)
find_live [] key_hash = none
find_live (k ∷ t) key_hash =
    if same k.key_hash key_hash && is_live k then some (k.user_id, k.id) else find_live t key_hash

-- An `INTEGER PRIMARY KEY` is one more than the largest in the table.
unfoldable pub next_id : List ApiKeyRow → ℕ
next_id [] = 1
next_id (k ∷ t) = max (k.id + 1) (next_id t)

unfoldable pub has_hash : List ApiKeyRow → Text → Bool
has_hash [] key_hash = false
has_hash (k ∷ t) key_hash = same k.key_hash key_hash || has_hash t key_hash

module _ (hash_key : Text → Option Text) where
  insert_key : List ApiKeyRow → Uuid → Text → ℕ → Text → Fallible (List ApiKeyRow × ApiKeyRow)
  insert_key t user_id label now key_hash =
      let row : ApiKeyRow = record {
        id = next_id t;
        user_id = user_id;
        key_hash = key_hash;
        label = label;
        created_at = now;
        last_used_at = none;
        revoked_at = none;
      } in
      if has_hash t key_hash then failed else done (t ++ row ∷ [], row)

  -- `key` is the plaintext that `generate_key` drew; a hash that is there already is an error.
  unfoldable pub create_key :
      List ApiKeyRow → Text → Uuid → Text → ℕ → Fallible (List ApiKeyRow × ApiKeyRow)
  unfolding insert_key
  create_key t key user_id label now = elim (hash_key key) [
    | none ↦ failed
    | some key_hash ↦ insert_key t user_id label now key_hash
  ]

  unfoldable pub authenticate : List ApiKeyRow → Text → Fallible (Option (Uuid × ℕ))
  authenticate t presented_key = elim (hash_key presented_key) [
    | none ↦ failed
    | some key_hash ↦ done (find_live t key_hash)
  ]

unfoldable pub touch_last_used : List ApiKeyRow → ℕ → ℕ → List ApiKeyRow
touch_last_used t now key_id =
    map (λ k. if k.id == key_id then record k { last_used_at = some now } else k) t

-- The row that `revoke` may change.
abbrev pub is_revocable : ℕ → Uuid → ApiKeyRow → Bool
is_revocable key_id user_id k = k.id == key_id && (k.user_id == user_id && is_live k)

unfoldable pub revoke : List ApiKeyRow → ℕ → ℕ → Uuid → Bool × List ApiKeyRow
revoke t now key_id user_id = (
  any (is_revocable key_id user_id) t,
  map (λ k. if is_revocable key_id user_id k then record k { revoked_at = some now } else k) t,
)

-- `revoked_at IS NOT NULL AND revoked_at < now - 7 days`, with the subtraction moved over.
abbrev pub is_purged : ℕ → ApiKeyRow → Bool
is_purged now k = elim k.revoked_at [
  | none ↦ false
  | some at ↦ ltb (at + revoked_retention_secs) now
]

unfoldable pub purge_revoked : List ApiKeyRow → ℕ → List ApiKeyRow
purge_revoked t now = filter (λ k. not (is_purged now k)) t

-- The part of `UserDao::delete` on this table.
unfoldable pub delete_for_user : List ApiKeyRow → Uuid → List ApiKeyRow
delete_for_user t user_id = filter (λ k. not (k.user_id == user_id)) t
