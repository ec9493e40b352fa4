-- ===== src/Tests/AuthRuns.antt =====
-- The theorem on src/modules/auth, applied to a passport that takes one header.
use secondhand_api.Prelude.{◌==◌, none, some, [], ◌∷◌, ◌≡◌, ◌↔◌, refl, if◌then◌else◌}
use secondhand_api.Http.{ok}
use secondhand_api.Auth.Strategies.{JwtPayload, JwtValidationResult}
use secondhand_api.Auth.Guards.{verified, rejected, Passport, Route, guarded, required}
use secondhand_api.Auth.Access.{IsAccessToken, MayDo, guarded_iff}

abbrev claims : JwtPayload
claims = record { sub = some "a"; email = some "a@mail"; role = some "ADMIN"; kind = some "access" }

instance abbrev example_passport : Passport
example_passport = record {
  verify_access =
      λ header. if header == "Bearer good" then verified claims else rejected "jwt malformed";
  verify_refresh = λ header. rejected "jwt malformed";
}

abbrev admin_only : Route
admin_only = record {
  public_handler = none;
  public_class = none;
  roles_handler = some ("ADMIN" ∷ []);
  roles_class = none;
}

abbrev admin : JwtValidationResult
admin = record { user_id = "a"; email = "a@mail"; role = "ADMIN" }

guarded_iff_example :
    (guarded admin_only "Bearer good" ≡ ok (some admin))
    ↔ (IsAccessToken "Bearer good" admin × MayDo (required admin_only) "ADMIN")
guarded_iff_example = guarded_iff admin_only "Bearer good" admin refl
