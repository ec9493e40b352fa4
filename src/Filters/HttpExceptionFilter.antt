-- ===== src/Filters/HttpExceptionFilter.antt =====
-- src/common/filters/http-exception.filter.ts. The exceptions of @nestjs/common have a status, a
-- name and an `error` of their own. Logging is left out.
use Prim.Native.String.{◌++◌}
use secondhand_api.Prelude.{
  ℕ, String, Bool, Option, none, some, List, [], ◌∷◌, ◌==◌, ◌||◌, if◌then◌else◌, false,
}
use secondhand_api.Http.{
  Exception, bad_request, unauthorized, forbidden, not_found, conflict, prisma_error, failure,
  exhausted,
}

pub record ErrorDetail : Type 0 where
  pub code : String
  pub message : String
  pub details : Option String

pub record ErrorResponse : Type 0 where
  pub success : Bool
  pub status_code : ℕ
  pub error : ErrorDetail
  pub timestamp : ℕ
  pub path : String

pub record PrismaAnswer : Type 0 where
  pub status : ℕ
  pub message : String

-- field.join(', ')
abbrev join_fields : List String → String
join_fields [] = ""
join_fields (f ∷ []) = f
join_fields (f ∷ g ∷ fs) = f ++ (", " ++ join_fields (g ∷ fs))

-- By the code of the error and the columns that `meta.target` names.
unfoldable pub handle_prisma_error : String → List String → PrismaAnswer
handle_prisma_error code target =
    if code == "P2002"
    then record { status = 409; message = join_fields target ++ " 필드가 이미 존재합니다" }
    else if code == "P2025"
    then record { status = 404; message = "요청한 리소스를 찾을 수 없습니다" }
    else if code == "P2003"
    then record { status = 400; message = "참조된 리소스가 존재하지 않습니다" }
    else if code == "P2011"
    then record { status = 400; message = "필수 필드가 누락되었습니다" }
    else if code == "P2006"
    then record { status = 400; message = "잘못된 데이터 형식입니다" }
    else if code == "P1001" || code == "P1002"
    then record { status = 503; message = "데이터베이스 연결에 실패했습니다" }
    else record { status = 500; message = "데이터베이스 오류가 발생했습니다" }

-- getStatus(), and the detail by name and response.
unfoldable pub status_and_detail : Exception → List String → Option (ℕ × ErrorDetail)
unfolding handle_prisma_error
status_and_detail (bad_request m) target =
    some (400, record { code = "BadRequestException"; message = m; details = some "Bad Request" })
status_and_detail (unauthorized m) target =
    some
      (401, record { code = "UnauthorizedException"; message = m; details = some "Unauthorized" })
status_and_detail (forbidden m) target =
    some (403, record { code = "ForbiddenException"; message = m; details = some "Forbidden" })
status_and_detail (not_found m) target =
    some (404, record { code = "NotFoundException"; message = m; details = some "Not Found" })
status_and_detail (conflict m) target =
    some (409, record { code = "ConflictException"; message = m; details = some "Conflict" })
status_and_detail (prisma_error code) target =
    let answer = handle_prisma_error code target in
    some (answer.status, record { code = code; message = answer.message; details = none })
status_and_detail (failure m) target =
    some (500, record { code = "Error"; message = m; details = none })
-- No answer comes of a loop that does not end.
status_and_detail exhausted target = none

-- `catch`, with the columns of a Prisma error, the time and the path of the request.
unfoldable pub catch_exception : Exception → List String → ℕ → String → Option ErrorResponse
unfolding status_and_detail
catch_exception e target now path = elim (status_and_detail e target) [
  | none ↦ none
  | some (status, detail) ↦ some (record {
    success = false;
    status_code = status;
    error = detail;
    timestamp = now;
    path = path;
  })
]
