-- ===== src/Permission/Granted.antt =====
-- What the checks of a request grant, in terms of lists of permissions.
use meowith.Base.{
  ℕ, ◌≡◌, refl, Bool, true, ◌&&◌, ◌||◌, ◌==◌, if◌then◌else◌, List, [], Option, none, some, AnyOf,
  any-AnyOf, ◌↔◌, ◌≤◌, ap, ◌∙◌, ◌≢◌, ◌⊎◌, inl, inr, arith,
}
use meowith.Base.Dict.{lookup}
use meowith.Base.Result.{Result, ok, err}
use meowith.Reservation.Reserve.{NodeClientError, bad_auth}
use meowith.Permission.Lists.{
  IsEntry, check_permission, to_u64, from_u64, all_in, check_permission-to_u64, contains,
}
use meowith.Permission.Access.{
  UserPermission, read, write, overwrite, list_directory, list_bucket, rename, delete,
  fetch_bucket_info, user_permission, AppPermission, app_permission, create_bucket, delete_bucket,
  list_all_tokens, delete_all_tokens, manage_roles, AppTokenPermit, BucketAccessor, check_permit,
  find_permit, has_permission, PermCheckScope, application, buckets, in_scope, User, UserRoleItem,
  admin, role_allows, or_empty, collect_roles, has_app_permission,
}

user_place : (p : UserPermission) → (1 ≤ user_permission.number p) × (user_permission.number p ≤ 64)
user_place p = ground arith

user_complete : (p : UserPermission) → contains user_permission p user_permission.iter ≡ true
user_complete read = refl
user_complete write = refl
user_complete overwrite = refl
user_complete list_directory = refl
user_complete list_bucket = refl
user_complete rename = refl
user_complete delete = refl
user_complete fetch_bucket_info = refl

pub user_permission-IsEntry : IsEntry user_permission
user_permission-IsEntry = record { place = user_place; complete = user_complete }

app_place : (p : AppPermission) → (1 ≤ app_permission.number p) × (app_permission.number p ≤ 64)
app_place p = ground arith

app_complete : (p : AppPermission) → contains app_permission p app_permission.iter ≡ true
app_complete create_bucket = refl
app_complete delete_bucket = refl
app_complete list_all_tokens = refl
app_complete delete_all_tokens = refl
app_complete manage_roles = refl

pub app_permission-IsEntry : IsEntry app_permission
app_permission-IsEntry = record { place = app_place; complete = app_complete }

check_permit_lem :
    (found : Option AppTokenPermit) (qs : List UserPermission)
    → (check_permit found (to_u64 user_permission qs) ≡ ok tt)
      ↔ (permit : AppTokenPermit) × (found ≡ some permit)
        × (all_in user_permission (from_u64 user_permission permit.allowance) qs ≡ true)
check_permit_lem none qs = (λ h. absurd (ground arith), λ (p, h, h'). absurd (ground arith))
check_permit_lem (some permit) qs =
    let same =
      check_permission-to_u64 user_permission user_permission-IsEntry permit.allowance qs in
    (λ h. (permit, refl, ground (arith, same)), λ (p, h, h'). grind (arith, same))

-- A token is allowed a list of permissions on a bucket exactly when it is one of the application,
-- and the first of its permits for that bucket is read as a list that has all of them.
pub has_permission-to_u64 :
    (accessor : BucketAccessor) (app_id bucket : ℕ) (qs : List UserPermission)
    → (has_permission accessor app_id bucket (to_u64 user_permission qs) ≡ ok tt)
      ↔ (accessor.app_id ≡ app_id)
        × (permit : AppTokenPermit) × (find_permit bucket accessor.permits ≡ some permit)
        × (all_in user_permission (from_u64 user_permission permit.allowance) qs ≡ true)
unfolding has_permission
has_permission-to_u64 accessor app_id bucket qs =
    let known = check_permit_lem (find_permit bucket accessor.permits) qs in
    (
      λ h.
          let (permit, found, held) = known.0 (ground arith) in (ground arith, permit, found, held),
      λ (h, permit, found, held). ground (arith, known.1 (permit, found, held)),
    )

-- The bucket of a permit that a scope is about: the nil one stands for the application.
abbrev pub Concerns : PermCheckScope → ℕ → Type 0
Concerns application bucket = bucket ≡ 0
Concerns (buckets bucket_id) bucket = (bucket_id ≡ bucket) × (bucket_id ≢ 0)

-- That a permit of a role is of the scope and is read as a list that has all of a request.
abbrev pub PermitHas : PermCheckScope → List AppPermission → ℕ × ℕ → Type 0
PermitHas scope qs permit =
    Concerns scope permit.0 × (all_in app_permission (from_u64 app_permission permit.1) qs ≡ true)

-- That a role of an application has such a permit.
abbrev pub RoleHas : PermCheckScope → List AppPermission → List UserRoleItem → ℕ → Type 0
RoleHas scope qs items role =
    (permits : List (ℕ × ℕ)) × (lookup role (collect_roles [] items) ≡ some permits)
    × AnyOf (PermitHas scope qs) permits

permit_test :
    (scope : PermCheckScope) (qs : List AppPermission) (permit : ℕ × ℕ)
    → ((in_scope scope permit.0 && check_permission permit.1 (to_u64 app_permission qs)) ≡ true)
      ↔ PermitHas scope qs permit
permit_test application qs permit =
    let same = check_permission-to_u64 app_permission app_permission-IsEntry permit.1 qs in
    (λ h. (ground arith, ground (arith, same)), λ (h, h'). ground (arith, same))
permit_test (buckets bucket_id) qs permit =
    let same = check_permission-to_u64 app_permission app_permission-IsEntry permit.1 qs in
    (
      λ h. ((ground arith, λ z. ground arith), ground (arith, same)),
      λ ((e, n), h'). ground (arith, same),
    )

role_test :
    (scope : PermCheckScope) (qs : List AppPermission) (found : Option (List (ℕ × ℕ)))
    → (role_allows scope (to_u64 app_permission qs) found ≡ true)
      ↔ (permits : List (ℕ × ℕ)) × (found ≡ some permits) × AnyOf (PermitHas scope qs) permits
role_test scope qs none = (λ h. absurd (ground arith), λ (p, h, h'). absurd (ground arith))
role_test scope qs (some permits) =
    let known =
      any-AnyOf
        (λ permit. in_scope scope permit.0 && check_permission permit.1 (to_u64 app_permission qs))
        (PermitHas scope qs) (permit_test scope qs) in
    (
      λ h. (permits, refl, (known permits).0 h),
      λ (p, h, h'). ap (role_allows scope (to_u64 app_permission qs)) h ∙ (known p).1 h',
    )

allowed_lem :
    (owns is_admin allows : Bool)
    → (◌≡◌ {A = Result {0, 0} NodeClientError Unit}
        (if owns || is_admin then ok tt else if allows then ok tt else err bad_auth)
        (ok tt))
      ↔ (((owns ≡ true) ⊎ (is_admin ≡ true)) ⊎ (allows ≡ true))
allowed_lem owns is_admin allows = ground arith

-- The dashboard, when the database answers, allows a user a list of permissions on an application
-- exactly when the user owns it or is an administrator, or has as a member a role with a permit
-- that is for the scope (for a bucket: the same one, and not the nil id) and is read as a list that
-- has all of them.
pub has_app_permission-to_u64 :
    (user : User) (owner_id : ℕ) (roles : Option (List ℕ)) (items : List UserRoleItem)
    (scope : PermCheckScope) (qs : List AppPermission)
    → (has_app_permission user owner_id (to_u64 app_permission qs) (ok roles) (ok items) scope
        ≡ ok tt)
      ↔ (((owner_id ≡ user.id) ⊎ (user.global_role ≡ admin))
          ⊎ AnyOf (RoleHas scope qs items) (or_empty roles))
unfolding has_app_permission
has_app_permission-to_u64 user owner_id roles items scope qs =
    let known =
      any-AnyOf
        (λ role.
          role_allows scope (to_u64 app_permission qs) (lookup role (collect_roles [] items)))
        (RoleHas scope qs items) (λ role. role_test scope qs (lookup role (collect_roles [] items)))
        (or_empty roles) in
    (
      λ h. elim ((allowed_lem (owner_id == user.id) (user.global_role == admin) _).0 h) [
        | inl (inl owns) ↦ inl (inl (ground arith))
        | inl (inr is_admin) ↦ inl (inr (ground arith))
        | inr allows ↦ inr (known.0 allows)
      ],
      λ h. (allowed_lem (owner_id == user.id) (user.global_role == admin) _).1 (elim h [
        | inl (inl owns) ↦ inl (inl (ground arith))
        | inl (inr is_admin) ↦ inl (inr (ground arith))
        | inr has ↦ inr (known.1 has)
      ]),
    )
