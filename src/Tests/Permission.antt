-- ===== src/Tests/Permission.antt =====
-- Permissions of the tests in commons/src/permission/mod.rs, a token, and a member with a role.
use meowith.Base.{◌≡◌, ◌≢◌, refl, ◌↔◌, ◌⊎◌, true, false, some, List, [], ◌∷◌, AnyOf, arith}
use meowith.Base.Result.{ok}
use meowith.Permission.Words.{and_word, or_word}
use meowith.Permission.Lists.{bit, check_permission, to_u64, from_u64, all_in}
use meowith.Permission.Access.{
  overwrite, list_bucket, rename, user_permission, app_permission, create_bucket, delete_bucket,
  AppTokenPermit, BucketAccessor, find_permit, has_permission, User, UserRoleItem, application,
  buckets, admin, has_app_permission, or_empty, UserPermission,
}
use meowith.Permission.Granted.{RoleHas, has_permission-to_u64, has_app_permission-to_u64}

abbrev asked : List UserPermission
asked = list_bucket ∷ overwrite ∷ rename ∷ []

to_u64_test : to_u64 user_permission asked ≡ 52
unfolding to_u64 or_word bit
to_u64_test = refl

from_u64_test : from_u64 user_permission 52 ≡ overwrite ∷ list_bucket ∷ rename ∷ []
unfolding from_u64 and_word bit
from_u64_test = refl

check_permission_test : check_permission 48 52 ≡ false
unfolding check_permission and_word
check_permission_test = refl

abbrev accessor : BucketAccessor
accessor = record {
  permits =
      record { bucket_id = 30; allowance = 3 } ∷ record { bucket_id = 31; allowance = 52 } ∷ [];
  app_id = 7;
}

has_permission_test : has_permission accessor 7 31 52 ≡ ok tt
unfolding has_permission check_permission and_word
has_permission_test = refl

has_permission-to_u64_example :
    (has_permission accessor 7 31 (to_u64 user_permission asked) ≡ ok tt)
    ↔ (accessor.app_id ≡ 7)
      × (permit : AppTokenPermit) × (find_permit 31 accessor.permits ≡ some permit)
      × (all_in user_permission (from_u64 user_permission permit.allowance) asked ≡ true)
has_permission-to_u64_example = has_permission-to_u64 accessor 7 31 asked

abbrev member : User
member = record { id = 5; global_role = 1 }

abbrev roles : List UserRoleItem
roles = record { name = 1; scopes = some ((0, 16) ∷ (9, 3) ∷ []) } ∷ []

-- No permission is needed, and a member without roles is refused.
no_allowance_test : has_app_permission member 4 0 (ok (some [])) (ok roles) application ≢ ok tt
unfolding has_app_permission
no_allowance_test h = absurd (ground arith)

has_app_permission-to_u64_example :
    (has_app_permission member 4
        (to_u64 app_permission (create_bucket ∷ delete_bucket ∷ []))
        (ok (some (1 ∷ [])))
        (ok roles)
        (buckets 9)
      ≡ ok tt)
    ↔ (((4 ≡ member.id) ⊎ (member.global_role ≡ admin))
        ⊎ AnyOf
            (RoleHas (buckets 9) (create_bucket ∷ delete_bucket ∷ []) roles)
            (or_empty (some (1 ∷ []))))
has_app_permission-to_u64_example =
    has_app_permission-to_u64 member 4 (some (1 ∷ [])) roles (buckets 9)
      (create_bucket ∷ delete_bucket ∷ [])
