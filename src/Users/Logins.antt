-- ===== src/Users/Logins.antt =====
-- Logging in, by `login` of src/modules/users/users.service.ts, also right after signing up.
use secondhand_api.Prelude.{
  suc, true, none, some, ◌≡◌, refl, ap, ◌⊎◌, ◌↔◌, inl, inr, arith, eq_self, Bool-cases,
  Option-cases,
}
use secondhand_api.Http.{Exception, ok, err, unauthorized}
use secondhand_api.Schema.{User}
use secondhand_api.World.{Backend, World, user_at}
use secondhand_api.Users.Security.{Security, Claims, TokenType, access, refresh}
use secondhand_api.Users.UsersRepository.{user_of_email, update_last_login}
use secondhand_api.Users.UsersService
use secondhand_api.Users.UsersService.{
  CreateUserDto, LoginUserDto, Session, new_user, without_password, only_if, check_phone,
  check_nickname, generate_tokens,
}
use secondhand_api.Users.Accounts.{IsUnused, account, created_state, create-stores, created-found}

module _ ⦃b : Backend⦄ where
  module _ ⦃s : Security⦄ where
    -- The account of the email is active and the password is its own.
    pub record CanLogin (w : World) (dto : LoginUserDto) (u : User) : Type 0 where
      pub found : user_of_email w dto.email ≡ some u
      pub is_active : u.is_active ≡ true
      pub password : s.matches dto.password u.password ≡ true

    login_cases :
        (dto : LoginUserDto) (w : World)
        → ((u : User) × CanLogin w dto u)
          ⊎ ((e : Exception) × (UsersService.login dto w ≡ (err e, w)))
    unfolding UsersService.login
    login_cases dto w = elim (Option-cases (user_of_email w dto.email)) [
      | inl gone ↦ inr (unauthorized "이메일 또는 비밀번호가 일치하지 않습니다", rw gone refl)
      | inr (u, found) ↦ elim (Bool-cases u.is_active) [
        | inr left ↦ inr (unauthorized "비활성화된 계정입니다", rw (found, left) refl)
        | inl stays ↦ elim (Bool-cases (s.matches dto.password u.password)) [
          | inr wrong ↦ inr (unauthorized "이메일 또는 비밀번호가 일치하지 않습니다", rw (found, stays, wrong) refl)
          | inl right ↦ inl (u, record { found = found; is_active = stays; password = right })
        ]
      ]
    ]

    login-succeeds :
        (dto : LoginUserDto) (w : World) (u : User)
        → CanLogin w dto u
        → (session : Session) × (w' : World) × (UsersService.login dto w ≡ (ok session, w'))
          × (session.user ≡ without_password u)
          × (user_at w' u.id ≡ some (record u { last_login_at = some (b.date w.readings) }))
    unfolding UsersService.login update_last_login generate_tokens
    login-succeeds dto w u can =
        let there = (b.user.found_first _ w.users u can.found).0 in
        let f = λ (r : User). record r { last_login_at = some (b.date w.readings) } in
        let claims : TokenType → Claims =
          λ kind. record { sub = u.id; email = u.email; role = u.role; kind = kind } in
        (
          record {
            tokens = record {
              access_token = s.sign (claims access) (suc w.readings);
              refresh_token = s.sign (claims refresh) (suc (suc w.readings));
            };
            user = without_password u;
          },
          record w {
            users = (b.user.update u.id f w.users).1;
            readings = suc (suc (suc w.readings));
          },
          rw (can.found, can.is_active, can.password, b.user.update_row, there) refl,
          refl,
          rw (b.user.find-update u.id u.id f w.users (λ r. refl), eq_self u.id, there) refl,
        )

    -- A login returns, whatever the request, exactly if the email has an active account and the
    -- password matches its hash; otherwise it throws and changes nothing.
    pub login_iff :
        (dto : LoginUserDto) (w : World)
        → (((session : Session) × ((UsersService.login dto w).0 ≡ ok session))
            ↔ ((u : User) × CanLogin w dto u))
          × (((u : User) → ¬ CanLogin w dto u)
              → (e : Exception) × (UsersService.login dto w ≡ (err e, w)))
    login_iff dto w = (
      (
        λ (session, done). elim (login_cases dto w) [
          | inl can ↦ can
          | inr (e, refused) ↦ absurd (ground (arith, refused, done))
        ],
        λ (u, can).
            let (session, w', run, _, _) = login-succeeds dto w u can in
            (session, ap (λ r. r.0) run),
      ),
      λ never. elim (login_cases dto w) [
        | inl (u, can) ↦ absurd (never u can)
        | inr refused ↦ refused
      ],
    )

    -- Who signs up with an unused email, nickname and phone number gets an account, if the id to
    -- come is unused, and can log in with the same email and password: what both return is that
    -- account, without the password.
    pub create-login :
        (dto : CreateUserDto) (w : World)
        → IsUnused w dto
        → user_at w (b.uuid (suc w.readings)) ≡ none
        → (w' : World) × (UsersService.create dto w ≡ (ok (without_password (account dto w)), w'))
          × (session : Session) × (w'' : World) × (UsersService.login
                (record { email = dto.email; password = dto.password })
                w'
              ≡ (ok session, w''))
          × (session.user ≡ without_password (account dto w))
    unfolding new_user
    create-login dto w unused fresh =
        let (there, by_email) = created-found dto w unused fresh in
        let (session, w'', run, shown, _) =
          login-succeeds (record { email = dto.email; password = dto.password })
            (created_state dto w) (account dto w)
            (record {
              found = by_email;
              is_active = refl;
              password = s.matches-hash w.readings dto.password;
            }) in
        (created_state dto w, create-stores dto w unused fresh, session, w'', run, shown)
