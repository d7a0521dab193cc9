-- ===== src/Users.antt =====
-- src/db/dao/users.rs, the `users` table, and src/web/features/admin/users.rs, the handlers that
-- move a user between roles or delete one. The table is the list of its rows. `W` stands for the
-- values of the webauthn-rs crate, which the server stores and does not look into.
pub mod Table
pub mod LastAdmin
use hotchkiss_io.Base.{
  List, Option, [], any, filter, if◌then◌else◌, is_some, leb, length, map, none, not, some, ℕ, ◌&&◌,
  ◌++◌, ◌==◌, ◌||◌, ◌∷◌,
}
use hotchkiss_io.Text.{Text, same}
use hotchkiss_io.Roles.{Role, admin, family, registered, same_role}

abbrev pub Uuid : Type 0
Uuid = ℕ

pub record UserDao (W : Type 0) : Type 0 where
  pub display_name : Text
  pub id : Uuid
  pub keys : List W
  pub role : Role

-- What a handler answers: a page refresh, or a status with the change refused.
pub data Reply : Type 0 where
  refresh : Reply
  bad_request not_found conflict : Reply

abbrev pub assignable_roles : List Role
assignable_roles = registered ∷ family ∷ admin ∷ []

module _ {W : Type 0} where
  unfoldable pub find_by_uuid : List (UserDao W) → Uuid → Option (UserDao W)
  find_by_uuid [] uuid = none
  find_by_uuid (u ∷ t) uuid = if u.id == uuid then some u else find_by_uuid t uuid

  unfoldable pub find_by_display_name : List (UserDao W) → Text → Option (UserDao W)
  find_by_display_name [] name = none
  find_by_display_name (u ∷ t) name =
      if same u.display_name name then some u else find_by_display_name t name

  -- `display_name` is the primary key and `id` is unique, so a second row with either is an error.
  -- The first user is the admin; the role that the table gives is written back.
  unfoldable pub create : List (UserDao W) → UserDao W → Option (List (UserDao W) × UserDao W)
  create t u =
      let u' = record u { role = if length t == 0 then admin else registered } in
      if is_some (find_by_display_name t u.display_name) || is_some (find_by_uuid t u.id)
      then none
      else some (t ++ u' ∷ [], u')

  unfoldable pub count_admins : List (UserDao W) → ℕ
  count_admins t = length (filter (λ u. same_role u.role admin) t)

  unfoldable pub set_role : List (UserDao W) → Uuid → Role → List (UserDao W)
  set_role t uuid r = map (λ u. if u.id == uuid then record u { role = r } else u) t

  -- The part of `UserDao::delete` on `users`; the part on `api_keys` is `ApiKeys.delete_for_user`.
  unfoldable pub delete_row : List (UserDao W) → Uuid → List (UserDao W)
  delete_row t uuid = filter (λ u. not (u.id == uuid)) t

  change_role : List (UserDao W) → Uuid → Role → Option (UserDao W) → Reply × List (UserDao W)
  change_role t uuid r none = (not_found, t)
  change_role t uuid r (some target) =
      if same_role target.role admin && not (same_role r admin) && leb (count_admins t) 1
      then (conflict, t)
      else (refresh, set_role t uuid r)

  unfoldable pub set_user_role : List (UserDao W) → Uuid → Role → Reply × List (UserDao W)
  unfolding change_role
  set_user_role t uuid r =
      if any (same_role r) assignable_roles
      then change_role t uuid r (find_by_uuid t uuid)
      else (bad_request, t)

  remove_found : List (UserDao W) → Uuid → Option (UserDao W) → Reply × List (UserDao W)
  remove_found t uuid none = (not_found, t)
  remove_found t uuid (some target) =
      if same_role target.role admin && leb (count_admins t) 1
      then (conflict, t)
      else (refresh, delete_row t uuid)

  unfoldable pub delete_user : List (UserDao W) → Uuid → Reply × List (UserDao W)
  unfolding remove_found
  delete_user t uuid = remove_found t uuid (find_by_uuid t uuid)
