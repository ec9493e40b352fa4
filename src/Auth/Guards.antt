-- ===== src/Auth/Guards.antt =====
-- src/modules/auth/guards. Passport, which verifies the token of a request and calls the strategy,
-- is a parameter.
use secondhand_api.Prelude.{
  String, Bool, false, ◌||◌, Option, none, some, List, [], ◌∷◌, ◌==◌, if◌then◌else◌,
}
use secondhand_api.Http.{Result, ok, err, unauthorized, forbidden}
use secondhand_api.Auth.Strategies.{
  JwtPayload, JwtValidationResult, validate_access, validate_refresh,
}

-- How passport-jwt takes the header of a request under one of the two secrets: the claims of a
-- token that is valid and not expired, or the message of the error that it hands over as `info`.
pub data Verified : Type 0 where
  verified : JwtPayload → Verified
  rejected : (message : String) → Verified

pub record Passport : Type 0 where
  pub verify_access : String → Verified
  pub verify_refresh : String → Verified

-- reflector.getAllAndOverride(key, [handler, class])
abbrev pub override {ℓ} : {A : Type ℓ} → Option A → Option A → Option A
override none on_class = on_class
override (some a) on_class = some a

-- The metadata that decorators put on a route, by its handler and its class.
pub record Route : Type 0 where
  pub public_handler : Option Bool
  pub public_class : Option Bool
  pub roles_handler : Option (List String)
  pub roles_class : Option (List String)

-- handleRequest of JwtAuthGuard, with the error and user of the strategy, and the info.
unfoldable pub handle_request :
    Result JwtValidationResult → Option String → Result JwtValidationResult
handle_request (ok user) info = ok user
handle_request (err e) (some message) = err (unauthorized message)
handle_request (err e) none = err e

-- The same of JwtRefreshAuthGuard, which gives the text `info.message`.
unfoldable pub handle_refresh_request :
    Result JwtValidationResult → Option String → Result JwtValidationResult
handle_refresh_request (ok user) info = ok user
handle_refresh_request (err e) (some message) = err (unauthorized "info.message")
handle_refresh_request (err e) none = err e

abbrev pub is_true : Option Bool → Bool
is_true none = false
is_true (some x) = x

-- requiredRoles.includes(role)
abbrev pub includes_role : String → List String → Bool
includes_role role [] = false
includes_role role (r ∷ rs) = r == role || includes_role role rs

-- A user of the request that is not there stands for itself: no user is taken as an error without
-- info.
abbrev pub authenticated :
    Verified
    → (JwtPayload → Result JwtValidationResult)
    → (Result JwtValidationResult → Option String → Result JwtValidationResult)
    → Result JwtValidationResult
authenticated (verified payload) validate handle = handle (validate payload) none
authenticated (rejected message) validate handle =
    handle (err (unauthorized "인증에 실패했습니다")) (some message)

abbrev pub some_user : Result JwtValidationResult → Result (Option JwtValidationResult)
some_user (ok user) = ok (some user)
some_user (err e) = err e

-- RolesGuard.canActivate, by the roles that are required and the user of the request.
abbrev pub role_check : List String → Option JwtValidationResult → Result (Unit {0})
role_check [] user = ok tt
role_check (r ∷ rs) none = err (forbidden "사용자 인증 정보를 찾을 수 없습니다")
role_check (r ∷ rs) (some user) =
    if user.role == ""
    then err (forbidden "사용자 역할 정보를 찾을 수 없습니다")
    else (if includes_role user.role (r ∷ rs) then ok tt else err (forbidden "이 작업을 수행할 권한이 없습니다"))

abbrev pub required : Route → List String
required route = elim (override route.roles_handler route.roles_class) [ none ↦ [] | some rs ↦ rs ]

unfoldable pub roles_can_activate : Route → Option JwtValidationResult → Result (Unit {0})
roles_can_activate route = role_check (required route)

abbrev pub if_allowed :
    Result (Unit {0}) → Option JwtValidationResult → Result (Option JwtValidationResult)
if_allowed (ok _) user = ok user
if_allowed (err e) user = err e

abbrev pub then_roles :
    Route → Result (Option JwtValidationResult) → Result (Option JwtValidationResult)
then_roles route (err e) = err e
then_roles route (ok user) = if_allowed (roles_can_activate route user) user

module _ ⦃p : Passport⦄ where
  -- JwtAuthGuard: the user that it sets on the request.
  unfoldable pub jwt_can_activate : Route → String → Result (Option JwtValidationResult)
  unfolding handle_request validate_access
  jwt_can_activate route header =
      if is_true (override route.public_handler route.public_class)
      then ok none
      else some_user (authenticated (p.verify_access header) validate_access handle_request)

  -- JwtRefreshAuthGuard
  unfoldable pub refresh_can_activate : String → Result JwtValidationResult
  unfolding handle_refresh_request validate_refresh
  refresh_can_activate header =
      authenticated (p.verify_refresh header) validate_refresh handle_refresh_request

  -- @UseGuards(JwtAuthGuard, RolesGuard): one after the other.
  unfoldable pub guarded : Route → String → Result (Option JwtValidationResult)
  unfolding jwt_can_activate roles_can_activate
  guarded route header = then_roles route (jwt_can_activate route header)
