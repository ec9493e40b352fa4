-- ===== src/Users/UsersService.antt =====
-- src/modules/users/users.service.ts, with the DTOs of src/modules/users/dto. A field of a DTO that
-- is absent is `none`. A user without the password is of a type of its own.
use secondhand_api.Prelude.{
  truthy_text, if_truthy, ℕ, suc, String, Bool, true, false, not, ◌&&◌, Option, none, some, given,
  given_or_kept,
}
use secondhand_api.Http.{ok, bad_request, conflict, not_found, unauthorized}
use secondhand_api.Exec.{Exec, pure, or_throw, throw_if, throw_if_found, ◌>>=◌, ◌>>◌}
use secondhand_api.Schema.{User, Role, same_given}
use secondhand_api.World.{Backend, World, new_date, new_id}
use secondhand_api.Orders.OrdersService
use secondhand_api.Users.Security.{Security, Claims, access, refresh}
use secondhand_api.Users.UsersRepository

pub record CreateUserDto : Type 0 where
  pub email : String
  pub password : String
  pub nickname : String
  pub name : Option String
  pub phone_number : Option String

pub record UpdateUserDto : Type 0 where
  pub nickname : Option String
  pub name : Option String
  pub phone_number : Option String
  pub profile_image : Option String
  pub bio : Option String

pub record LoginUserDto : Type 0 where
  pub email : String
  pub password : String

-- Omit<User, 'password'>
pub record PublicUser : Type 0 where
  pub id : String
  pub email : String
  pub name : Option String
  pub nickname : String
  pub phone_number : Option String
  pub profile_image : Option String
  pub bio : Option String
  pub role : Role
  pub email_verified : Bool
  pub phone_verified : Bool
  pub is_active : Bool
  pub rating : ℕ
  pub rating_count : ℕ
  pub trust_score : ℕ
  pub created_at : ℕ
  pub last_login_at : Option ℕ

pub record Tokens : Type 0 where
  pub access_token : String
  pub refresh_token : String

pub record Session : Type 0 where
  pub tokens : Tokens
  pub user : PublicUser

unfoldable pub without_password : User → PublicUser
without_password u = record {
  id = u.id;
  email = u.email;
  name = u.name;
  nickname = u.nickname;
  phone_number = u.phone_number;
  profile_image = u.profile_image;
  bio = u.bio;
  role = u.role;
  email_verified = u.email_verified;
  phone_verified = u.phone_verified;
  is_active = u.is_active;
  rating = u.rating;
  rating_count = u.rating_count;
  trust_score = u.trust_score;
  created_at = u.created_at;
  last_login_at = u.last_login_at;
}

-- The row that `create` stores; columns that it does not name have their defaults.
unfoldable pub new_user : String → ℕ → String → CreateUserDto → User
new_user id now hashed dto = record {
  id = id;
  email = dto.email;
  password = hashed;
  name = if_truthy dto.name;
  nickname = dto.nickname;
  phone_number = if_truthy dto.phone_number;
  profile_image = none;
  bio = none;
  role = Role.user;
  email_verified = false;
  phone_verified = false;
  is_active = true;
  rating = 0;
  rating_count = 0;
  trust_score = 0;
  created_at = now;
  last_login_at = none;
}

-- `data: updateUserDto`
unfoldable pub update_data : UpdateUserDto → User → User
update_data dto u = record u {
  nickname = given dto.nickname u.nickname;
  name = given_or_kept dto.name u.name;
  phone_number = given_or_kept dto.phone_number u.phone_number;
  profile_image = given_or_kept dto.profile_image u.profile_image;
  bio = given_or_kept dto.bio u.bio;
}

-- A new value that is given and differs from the old one.
abbrev pub changes : Option String → Option String → Bool
changes new old = truthy_text new && not (same_given new old)

module _ ⦃b : Backend⦄ where
  -- The checks that a nickname, or a phone number if one is given, is free.
  unfoldable pub check_nickname : String → Exec World (Unit {0})
  unfolding UsersRepository.find_by_nickname
  check_nickname nickname = do
    existing ← UsersRepository.find_by_nickname nickname
    throw_if_found (conflict "이미 사용 중인 닉네임입니다") existing

  unfoldable pub check_phone : String → Exec World (Unit {0})
  unfolding UsersRepository.find_by_phone_number
  check_phone phone = do
    existing ← UsersRepository.find_by_phone_number phone
    throw_if_found (conflict "이미 사용 중인 전화번호입니다") existing

  -- `if (test) { … }`
  abbrev pub only_if : Bool → Exec World (Unit {0}) → Exec World (Unit {0})
  only_if true m = m
  only_if false m = pure tt

  unfoldable pub find_one : String → Exec World PublicUser
  unfolding UsersRepository.find_by_id
  find_one id = do
    found ← UsersRepository.find_by_id id
    user ← or_throw (not_found "사용자를 찾을 수 없습니다") found
    pure (without_password user)

  unfoldable pub ensure_user_exists : String → Exec World (Unit {0})
  unfolding UsersRepository.find_by_id
  ensure_user_exists id = do
    found ← UsersRepository.find_by_id id
    user ← or_throw (not_found "사용자를 찾을 수 없습니다") found
    pure tt

  unfoldable pub update : String → UpdateUserDto → Exec World PublicUser
  unfolding UsersRepository.find_by_id UsersRepository.update check_nickname check_phone update_data
  update id dto = do
    found ← UsersRepository.find_by_id id
    user ← or_throw (not_found "사용자를 찾을 수 없습니다") found
    only_if (changes dto.nickname (some user.nickname)) (check_nickname (given dto.nickname ""))
    only_if (changes dto.phone_number user.phone_number) (check_phone (given dto.phone_number ""))
    updated_user ← UsersRepository.update id (update_data dto)
    pure (without_password updated_user)

  unfoldable pub remove : String → Exec World User
  unfolding UsersRepository.find_by_id OrdersService.has_ongoing_orders_by_user_id
      UsersRepository.soft_delete
  remove id = do
    found ← UsersRepository.find_by_id id
    user ← or_throw (not_found "사용자를 찾을 수 없습니다") found
    throw_if (not user.is_active) (bad_request "이미 탈퇴한 계정입니다")
    has_ongoing_orders ← OrdersService.has_ongoing_orders_by_user_id id
    throw_if has_ongoing_orders (conflict "진행 중인 거래가 있어 탈퇴할 수 없습니다. 모든 거래를 완료하거나 취소해주세요.")
    UsersRepository.soft_delete id

  module _ ⦃s : Security⦄ where
    -- `bcrypt.hash(password, this.saltRounds)`
    unfoldable pub hash : String → Exec World String
    hash password w = (ok (s.hash w.readings password), record w { readings = suc w.readings })

    -- `jwtService.signAsync(…)`
    unfoldable pub sign_async : Claims → Exec World String
    sign_async claims w = (ok (s.sign claims w.readings), record w { readings = suc w.readings })

    unfoldable pub create : CreateUserDto → Exec World PublicUser
    unfolding UsersRepository.find_by_email UsersRepository.create check_nickname check_phone hash
        new_user new_id new_date
    create dto = do
      existing ← UsersRepository.find_by_email dto.email
      throw_if_found (conflict "이미 사용 중인 이메일입니다") existing
      check_nickname dto.nickname
      only_if (truthy_text dto.phone_number) (check_phone (given dto.phone_number ""))
      hashed_password ← hash dto.password
      id ← new_id
      now ← new_date
      user ← UsersRepository.create (new_user id now hashed_password dto)
      pure (without_password user)

    unfoldable pub generate_tokens : String → String → Role → Exec World Tokens
    unfolding sign_async
    generate_tokens user_id email role = do
      access_token ←
          sign_async (record { sub = user_id; email = email; role = role; kind = access })
      refresh_token ←
          sign_async (record { sub = user_id; email = email; role = role; kind = refresh })
      pure (record { access_token = access_token; refresh_token = refresh_token })

    unfoldable pub login : LoginUserDto → Exec World Session
    unfolding UsersRepository.find_by_email UsersRepository.update_last_login generate_tokens
        without_password
    login dto = do
      found ← UsersRepository.find_by_email dto.email
      user ← or_throw (unauthorized "이메일 또는 비밀번호가 일치하지 않습니다") found
      throw_if (not user.is_active) (unauthorized "비활성화된 계정입니다")
      throw_if (not (s.matches dto.password user.password)) (unauthorized "이메일 또는 비밀번호가 일치하지 않습니다")
      updated ← UsersRepository.update_last_login user.id
      tokens ← generate_tokens user.id user.email user.role
      pure (record { tokens = tokens; user = without_password user })

    unfoldable pub refresh_access_token : String → Exec World Tokens
    unfolding UsersRepository.find_by_id generate_tokens
    refresh_access_token user_id = do
      found ← UsersRepository.find_by_id user_id
      user ← or_throw (not_found "사용자를 찾을 수 없습니다") found
      throw_if (not user.is_active) (unauthorized "비활성화된 계정입니다")
      generate_tokens user.id user.email user.role
