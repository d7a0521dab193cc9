-- ===== src/Middleware/Gate.antt =====
-- Who may change the site: the authorization layers, fed by the identity layers.
use hotchkiss_io.Base.{Bool, Bool-cases, In, arith, false, inl, inr, refl, true, ◌↔◌, ◌≡◌, ◌⊎◌}
use hotchkiss_io.Text.{Text, codes, is_one_of}
use hotchkiss_io.Text.Laws.{is_one_of_iff, same_iff}
use hotchkiss_io.Roles.{admin}
use hotchkiss_io.Session.{
  AuthenticationState, Method, Request, is_admin, is_authenticated, post, role_of,
}
use hotchkiss_io.Middleware.{
  allowed_by_role_scope, ceremony_paths, forbidden, is_anonymous_auth_endpoint, is_safe_method,
  require_admin_for_mutations, role_scoped_mutations, run, unauthorized,
}

-- A change that needs no login: a POST of the sign-in ceremony.
abbrev pub IsCeremony : Bool → Method → Text → Type 0
IsCeremony debug m path =
    (m ≡ post) × (In path ceremony_paths ⊎ ((debug ≡ true) × (path ≡ codes "/test/login")))

is_anonymous_auth_endpoint_sound :
    (debug : Bool) (m : Method) (path : Text)
    → is_anonymous_auth_endpoint debug m path ≡ true
    → IsCeremony debug m path
unfolding is_anonymous_auth_endpoint
is_anonymous_auth_endpoint_sound debug post path h = (
  refl,
  elim (Bool-cases (is_one_of path ceremony_paths)) [
    | inl y ↦ inl ((is_one_of_iff path ceremony_paths).0 y)
    | inr n ↦ inr (ground arith, ground (arith, same_iff path (codes "/test/login")))
  ],
)
is_anonymous_auth_endpoint_sound debug _ path h = absurd (cc h)

is_anonymous_auth_endpoint_complete :
    (debug : Bool) (m : Method) (path : Text)
    → IsCeremony debug m path
    → is_anonymous_auth_endpoint debug m path ≡ true
unfolding is_anonymous_auth_endpoint
is_anonymous_auth_endpoint_complete debug m path (e, inl listed) =
    let y : is_one_of path ceremony_paths ≡ true = (is_one_of_iff path ceremony_paths).1 listed in
    rw (e, y) refl
is_anonymous_auth_endpoint_complete debug m path (e, inr (d, p)) =
    ground (arith, same_iff path (codes "/test/login"))

module _ {W : Type 0} where
  pub is_admin_iff : (s : AuthenticationState W) → (is_admin s ≡ true) ↔ (role_of s ≡ admin)
  unfolding is_admin
  is_admin_iff s = ground arith

  -- With the shipped, empty table a request reaches its handler exactly when its method is safe, it
  -- is a POST of the sign-in ceremony, or the identity is an admin's. A refusal is 403 for a
  -- logged-in user and 401 for anyone else.
  pub mutations_need_admin :
      (debug : Bool) (s : AuthenticationState W) (req : Request W)
      → ((require_admin_for_mutations debug role_scoped_mutations s req ≡ run) ↔ (
          (is_safe_method req.method ≡ true)
          ⊎ IsCeremony debug req.method req.path
          ⊎ (role_of s ≡ admin)))
        × (require_admin_for_mutations debug role_scoped_mutations s req ≡ forbidden
            → is_authenticated s ≡ true)
        × (require_admin_for_mutations debug role_scoped_mutations s req ≡ unauthorized
            → is_authenticated s ≡ false)
  unfolding require_admin_for_mutations allowed_by_role_scope
  mutations_need_admin debug s req = (
    (
      λ h.
          ground
            (arith, is_anonymous_auth_endpoint_sound debug req.method req.path, is_admin_iff s),
      λ h. elim h [
        | inl safe ↦ ground arith
        | inr (inl ceremony) ↦
            ground (arith, is_anonymous_auth_endpoint_complete debug req.method req.path ceremony)
        | inr (inr a) ↦ ground (arith, is_admin_iff s)
      ],
    ),
    λ h. ground arith,
    λ h. ground arith,
  )
