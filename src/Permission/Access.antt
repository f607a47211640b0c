-- ===== src/Permission/Access.antt =====
-- The permissions of users and of applications, and the two checks of a request: of a token at
-- a node (node/src/public/middleware/user_middleware.rs) and of a member at the dashboard
-- (dashboard/src/public/service/mod.rs).
use meowith.Base.{
  ℕ, Bool, false, not, ◌&&◌, ◌||◌, ◌==◌, if◌then◌else◌, List, [], ◌∷◌, Option, none, some, any,
}
use meowith.Base.Dict.{Dict, lookup, insert}
use meowith.Base.Result.{Result, ok, err, ◌>>=◌}
use meowith.Reservation.Reserve.{NodeClientError, bad_auth}
use meowith.Permission.Lists.{PermissionListEntry, check_permission}

pub data UserPermission : Type 0 where
  read : UserPermission
  write : UserPermission
  overwrite : UserPermission
  list_directory : UserPermission
  list_bucket : UserPermission
  rename : UserPermission
  delete : UserPermission
  fetch_bucket_info : UserPermission

abbrev pub user_number : UserPermission → ℕ
user_number read = 1
user_number write = 2
user_number overwrite = 3
user_number list_directory = 4
user_number list_bucket = 5
user_number rename = 6
user_number delete = 7
user_number fetch_bucket_info = 8

abbrev pub user_permission : PermissionListEntry UserPermission
user_permission = record {
  number = user_number;
  iter =
      read ∷ write ∷ overwrite ∷ list_directory ∷ list_bucket ∷ rename ∷ delete ∷ fetch_bucket_info
      ∷ [];
}

pub data AppPermission : Type 0 where
  create_bucket : AppPermission
  delete_bucket : AppPermission
  list_all_tokens : AppPermission
  delete_all_tokens : AppPermission
  manage_roles : AppPermission

abbrev pub app_number : AppPermission → ℕ
app_number create_bucket = 1
app_number delete_bucket = 2
app_number list_all_tokens = 3
app_number delete_all_tokens = 4
app_number manage_roles = 5

abbrev pub app_permission : PermissionListEntry AppPermission
app_permission = record {
  number = app_number;
  iter = create_bucket ∷ delete_bucket ∷ list_all_tokens ∷ delete_all_tokens ∷ manage_roles ∷ [];
}

pub record AppTokenPermit : Type 0 where
  pub bucket_id : ℕ
  pub allowance : ℕ

pub record BucketAccessor : Type 0 where
  pub permits : List AppTokenPermit
  pub app_id : ℕ

-- `permits.iter().find(…)`.
abbrev pub find_permit : ℕ → List AppTokenPermit → Option AppTokenPermit
find_permit bucket [] = none
find_permit bucket (p ∷ ps) = if p.bucket_id == bucket then some p else find_permit bucket ps

abbrev pub check_permit : Option AppTokenPermit → ℕ → Result {0, 0} NodeClientError Unit
check_permit none requested = err bad_auth
check_permit (some permit) requested =
    if check_permission permit.allowance requested then ok tt else err bad_auth

unfoldable pub has_permission : BucketAccessor → ℕ → ℕ → ℕ → Result {0, 0} NodeClientError Unit
has_permission accessor app_id bucket requested =
    if not (accessor.app_id == app_id)
    then err bad_auth
    else check_permit (find_permit bucket accessor.permits) requested

abbrev pub admin : ℕ
admin = 2

pub record User : Type 0 where
  pub id : ℕ
  pub global_role : ℕ

-- A role by its name: names are only compared, and numbers stand for them. An allowance is the
-- word of the `i64` that is stored, so `as u64` leaves it.
pub record UserRoleItem : Type 0 where
  pub name : ℕ
  pub scopes : Option (List (ℕ × ℕ))

pub data PermCheckScope : Type 0 where
  application : PermCheckScope
  buckets : ℕ → PermCheckScope

-- `unwrap_or_default()` of a set.
abbrev pub or_empty {ℓ} : {A : Type ℓ} → Option (List A) → List A
or_empty none = []
or_empty (some xs) = xs

-- The map of the roles, where a later row of a name replaces an earlier one.
abbrev pub collect_roles : Dict (List (ℕ × ℕ)) → List UserRoleItem → Dict (List (ℕ × ℕ))
collect_roles roles [] = roles
collect_roles roles (entry ∷ entries) =
    collect_roles (insert entry.name (or_empty entry.scopes) roles) entries

-- Whether a permit is of the scope.
abbrev pub in_scope : PermCheckScope → ℕ → Bool
in_scope application bucket = bucket == 0
in_scope (buckets bucket_id) bucket = not (bucket == 0) && (bucket_id == bucket)

abbrev pub permits_allow : PermCheckScope → ℕ → List (ℕ × ℕ) → Bool
permits_allow scope requested permits =
    any (λ permit. in_scope scope permit.0 && check_permission permit.1 requested) permits

abbrev pub role_allows : PermCheckScope → ℕ → Option (List (ℕ × ℕ)) → Bool
role_allows scope requested none = false
role_allows scope requested (some permits) = permits_allow scope requested permits

-- What the two queries of the database give are arguments: the roles of the member, and the
-- roles of the application.
unfoldable pub has_app_permission :
    User
    → ℕ
    → ℕ
    → Result NodeClientError (Option (List ℕ))
    → Result NodeClientError (List UserRoleItem)
    → PermCheckScope
    → Result {0, 0} NodeClientError Unit
has_app_permission user owner_id requested member_roles app_roles scope =
    if (owner_id == user.id) || (user.global_role == admin)
    then ok tt
    else member_roles >>= λ roles. app_roles >>= λ items.
        if any (λ role. role_allows scope requested (lookup role (collect_roles [] items)))
          (or_empty roles)
        then ok tt
        else err bad_auth
