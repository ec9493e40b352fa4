-- ===== src/Auth/Strategies.antt =====
-- src/modules/auth/strategies: what is read from a token that passport-jwt has verified.
use secondhand_api.Prelude.{
  String, Bool, not, ◌&&◌, ◌||◌, Option, none, some, ◌==◌, if◌then◌else◌, false,
}
use secondhand_api.Http.{Result, ok, err, unauthorized}

-- The claims of a token, any of which it may lack.
pub record JwtPayload : Type 0 where
  pub sub : Option String
  pub email : Option String
  pub role : Option String
  pub kind : Option String

pub record JwtValidationResult : Type 0 where
  pub user_id : String
  pub email : String
  pub role : String

-- payload.type && payload.type !== kind
abbrev pub is_other_kind : String → Option String → Bool
is_other_kind kind none = false
is_other_kind kind (some t) = not (t == "") && not (t == kind)

-- The result once all three are there.
abbrev pub result_of : Option String → Option String → Option String → Result JwtValidationResult
result_of (some sub) (some email) (some role) =
    if sub == "" || email == "" || role == ""
    then err (unauthorized "토큰에 필수 정보가 누락되었습니다")
    else ok (record { user_id = sub; email = email; role = role })
result_of _ _ _ = err (unauthorized "토큰에 필수 정보가 누락되었습니다")

unfoldable pub validate : String → JwtPayload → Result JwtValidationResult
validate kind payload =
    if is_other_kind kind payload.kind
    then err (unauthorized "유효하지 않은 토큰 타입입니다")
    else result_of payload.sub payload.email payload.role

-- JwtStrategy and JwtRefreshStrategy
unfoldable pub validate_access : JwtPayload → Result JwtValidationResult
unfolding validate
validate_access = validate "access"

unfoldable pub validate_refresh : JwtPayload → Result JwtValidationResult
unfolding validate
validate_refresh = validate "refresh"
