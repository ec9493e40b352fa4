-- ===== src/Auth/Access.antt =====
-- Which requests the guards of src/modules/auth let through, and as whom.
use secondhand_api.Prelude.{
  String, Bool, true, false, ◌||◌, Option, none, some, List, [], ◌∷◌, ◌≡◌, ◌↔◌, refl, sym, subst,
  ap, ◌∙◌, ◌⊎◌, inl, inr, ◌==◌, arith, if◌then◌else◌,
}
use secondhand_api.Http.{Result, ok, err, unauthorized}
use secondhand_api.Auth.Strategies.{
  JwtPayload, JwtValidationResult, is_other_kind, result_of, validate, validate_access,
}
use secondhand_api.Auth.Guards.{
  Verified, verified, rejected, Passport, Route, override, is_true, includes_role, required,
  if_allowed, some_user, role_check, then_roles, authenticated, handle_request, roles_can_activate,
  jwt_can_activate, guarded,
}

-- A payload that says who the user is, for tokens of a kind: it may leave out its kind.
abbrev pub HasClaims : String → JwtPayload → JwtValidationResult → Type 0
HasClaims kind payload user =
    (is_other_kind kind payload.kind ≡ false)
    × (payload.sub ≡ some user.user_id)
    × (payload.email ≡ some user.email)
    × (payload.role ≡ some user.role)
    × ((user.user_id == "" || user.email == "" || user.role == "") ≡ false)

result_of_lem :
    (sub email role : Option String) (user : JwtValidationResult)
    → result_of sub email role ≡ ok user
    → (sub ≡ some user.user_id)
      × (email ≡ some user.email)
      × (role ≡ some user.role)
      × ((user.user_id == "" || user.email == "" || user.role == "") ≡ false)
result_of_lem (some sub) (some email) (some role) user h = ground (arith, h)
result_of_lem none email role user h = cc
result_of_lem (some sub) none role user h = cc
result_of_lem (some sub) (some email) none user h = cc

fits_of_validate :
    (other : Bool) (reason : String) (r : Result JwtValidationResult) (user : JwtValidationResult)
    → (if other then err (unauthorized reason) else r) ≡ ok user
    → (other ≡ false) × (r ≡ ok user)
fits_of_validate true reason r user h = cc
fits_of_validate false reason r user h = (refl, h)

validate-HasClaims :
    (kind : String) (payload : JwtPayload) (user : JwtValidationResult)
    → validate kind payload ≡ ok user
    → HasClaims kind payload user
unfolding validate
validate-HasClaims kind payload user h =
    let (fits, valid) =
      fits_of_validate (is_other_kind kind payload.kind) _
        (result_of payload.sub payload.email payload.role) user h in
    let (sub, email, role, full) =
      result_of_lem payload.sub payload.email payload.role user valid in
    (fits, sub, email, role, full)

validate_of_HasClaims :
    (kind : String) (payload : JwtPayload) (user : JwtValidationResult)
    → HasClaims kind payload user
    → validate kind payload ≡ ok user
unfolding validate
validate_of_HasClaims kind payload user (fits, sub, email, role, full) =
    rw (fits, sub, email, role, full) refl

-- What is required of the user's role.
abbrev pub MayDo : List String → String → Type 0
MayDo required_roles role =
    (required_roles ≡ []) ⊎ (((role == "") ≡ false) × (includes_role role required_roles ≡ true))

roles-MayDo :
    (rs : List String) (user : JwtValidationResult)
    → role_check rs (some user) ≡ ok tt
    → MayDo rs user.role
roles-MayDo [] user h = inl refl
roles-MayDo (r ∷ rs) user h = inr (ground (arith, h))

roles_of_MayDo :
    (rs : List String) (user : JwtValidationResult)
    → MayDo rs user.role
    → role_check rs (some user) ≡ ok tt
roles_of_MayDo [] user h = refl
roles_of_MayDo (r ∷ rs) user (inl none_) = cc
roles_of_MayDo (r ∷ rs) user (inr (named, has)) = rw (named, has) refl

allowed :
    (r : Result (Unit {0})) (u v : Option JwtValidationResult)
    → if_allowed r u ≡ ok v
    → (r ≡ ok tt) × (u ≡ v)
allowed (ok tt) u v h = (refl, cc)
allowed (err e) u v h = cc

user_of :
    (r : Result JwtValidationResult) (u : Option JwtValidationResult)
    → some_user r ≡ ok u
    → (x : JwtValidationResult) × (r ≡ ok x) × (some x ≡ u)
user_of (ok x) u h = (x, refl, cc)
user_of (err e) u h = cc

accepted :
    (r : Result JwtValidationResult) (info : Option String) (user : JwtValidationResult)
    → handle_request r info ≡ ok user
    → r ≡ ok user
unfolding handle_request
accepted (ok x) info user h = h
accepted (err e) none user h = cc
accepted (err e) (some message) user h = cc

module _ ⦃p : Passport⦄ where
  -- A token that passport verifies with the access secret, whose claims are those of the user.
  abbrev pub IsAccessToken : String → JwtValidationResult → Type 0
  IsAccessToken header user =
      (payload : JwtPayload) × (p.verify_access header ≡ verified payload)
      × HasClaims "access" payload user

  passed :
      (v : Verified) (user : JwtValidationResult)
      → authenticated v validate_access handle_request ≡ ok user
      → (payload : JwtPayload) × (v ≡ verified payload) × HasClaims "access" payload user
  unfolding validate_access
  passed (verified payload) user h =
      (payload, refl, validate-HasClaims "access" payload user (accepted _ none user h))
  passed (rejected message) user h = absurd (let e = accepted (err _) (some message) user h in cc)

  -- The guards of a route that is not public.
  guarded-private :
      (route : Route) (header : String)
      → is_true (override route.public_handler route.public_class) ≡ false
      → guarded route header
        ≡ then_roles route
            (some_user (authenticated (p.verify_access header) validate_access handle_request))
  unfolding guarded jwt_can_activate
  guarded-private route header private_ = rw private_ refl

  let_through :
      (route : Route) (r : Result JwtValidationResult) (user : JwtValidationResult)
      → then_roles route (some_user r) ≡ ok (some user)
      → (r ≡ ok user) × MayDo (required route) user.role
  unfolding roles_can_activate
  let_through route (err e) user h = cc
  let_through route (ok x) user h =
      let (may, same) = allowed (role_check (required route) (some x)) (some x) (some user) h in
      let e : x ≡ user = cc in
      (ap ok e, subst (λ y. MayDo (required route) y.role) e (roles-MayDo (required route) x may))

  -- A route that is not public lets a request through exactly if its token is one of that user and
  -- the route requires no role or one that is theirs.
  pub guarded_iff :
      (route : Route) (header : String) (user : JwtValidationResult)
      → is_true (override route.public_handler route.public_class) ≡ false
      → (guarded route header ≡ ok (some user))
        ↔ (IsAccessToken header user × MayDo (required route) user.role)
  unfolding roles_can_activate handle_request validate_access
  guarded_iff route header user private_ = (
    λ h.
        let (valid, may) =
          let_through route _ user (sym (guarded-private route header private_) ∙ h) in
        (passed (p.verify_access header) user valid, may),
    λ t.
        let (payload, checked, claims) = t.0 in
        rw
          (
            guarded-private route header private_,
            checked,
            validate_of_HasClaims "access" payload user claims,
            roles_of_MayDo (required route) user t.1,
          )
          refl,
  )
