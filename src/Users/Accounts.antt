-- ===== src/Users/Accounts.antt =====
-- Signing up: `create` of src/modules/users/users.service.ts.
use secondhand_api.Prelude.{
  truthy_text, if_truthy, suc, String, false, Option, none, some, ◌≡◌, refl, ap, sym, ◌∙◌, inl, inr,
  ◌==◌, arith, eq_iff, eq_self, eq_true, eq_sym_false, Bool-cases, Option-cases, given,
}
use secondhand_api.Http.{ok}
use secondhand_api.Schema.{User, user_conflicts, same_given}
use secondhand_api.World.{Backend, World, user_at}
use secondhand_api.Users.Security.{Security}
use secondhand_api.Users.UsersRepository.{user_of_email, user_of_nickname, user_of_phone}
use secondhand_api.Users.UsersService
use secondhand_api.Users.UsersService.{
  CreateUserDto, LoginUserDto, Session, new_user, without_password, only_if, check_phone,
  check_nickname, generate_tokens,
}

phone_apart :
    (mine theirs : Option String)
    → ((p : String) → mine ≡ some p → same_given theirs (some p) ≡ false)
    → same_given mine theirs ≡ false
phone_apart none theirs apart = refl
phone_apart (some p) none apart = refl
phone_apart (some p) (some q) apart = eq_sym_false q p (apart p refl)

module _ ⦃b : Backend⦄ where
  -- No account has the email, the nickname or the phone number of a request.
  pub record IsUnused (w : World) (dto : CreateUserDto) : Type 0 where
    pub email : user_of_email w dto.email ≡ none
    pub nickname : user_of_nickname w dto.nickname ≡ none
    pub phone : (p : String) → if_truthy dto.phone_number ≡ some p → user_of_phone w p ≡ none

  check_phone-passes :
      (phone_number : Option String) (w : World)
      → ((p : String) → if_truthy phone_number ≡ some p → user_of_phone w p ≡ none)
      → only_if (truthy_text phone_number) (check_phone (given phone_number "")) w ≡ (ok tt, w)
  unfolding check_phone
  check_phone-passes none w free = refl
  check_phone-passes (some p) w free = elim (Bool-cases (p == "")) [
    | inl empty ↦ rw empty refl
    | inr number ↦ rw (number, free p (rw number refl)) refl
  ]

  clash-free :
      (u : User) (w : World)
      → user_at w u.id ≡ none
      → user_of_email w u.email ≡ none
      → user_of_nickname w u.nickname ≡ none
      → ((p : String) → u.phone_number ≡ some p → user_of_phone w p ≡ none)
      → b.user.find_first (user_conflicts u) w.users ≡ none
  clash-free u w fresh email nickname phone =
      elim (Option-cases (b.user.find_first (user_conflicts u) w.users)) [
        | inl free ↦ free
        | inr (x, clash) ↦
            let (there, conflict) = b.user.found_first _ w.users x clash in
            let email_differs = b.user.none_first _ w.users email x.id x there in
            let nickname_differs = b.user.none_first _ w.users nickname x.id x there in
            let phone_differs =
              phone_apart u.phone_number x.phone_number
                (λ p e. b.user.none_first _ w.users (phone p e) x.id x there) in
            ground (
              arith,
              there,
              conflict,
              email_differs,
              nickname_differs,
              phone_differs,
              fresh,
              eq_iff u.id x.id,
              eq_iff u.email x.email,
              eq_iff x.email u.email,
              eq_iff u.nickname x.nickname,
              eq_iff x.nickname u.nickname,
            )
      ]

  -- The account of an email, if it is the only one.
  found_by_email :
      (u : User) (w : World)
      → user_at w u.id ≡ some u
      → ((x : User) → user_at w x.id ≡ some x → x.email ≡ u.email → x.id ≡ u.id)
      → user_of_email w u.email ≡ some u
  found_by_email u w there only = elim (Option-cases (user_of_email w u.email)) [
    | inl gone ↦
        let differs = b.user.none_first _ w.users gone u.id u there in
        absurd (ground (arith, differs, eq_iff u.email u.email))
    | inr (x, found) ↦
        let (at, matching) = b.user.found_first _ w.users x found in
        let same = only x at (eq_true matching) in
        let e : some x ≡ some u = sym at ∙ ap (user_at w) same ∙ there in found ∙ e
  ]

  module _ ⦃s : Security⦄ (dto : CreateUserDto) (w : World) where
    -- The account that `create` stores.
    abbrev pub account : User
    account =
        new_user (b.uuid (suc w.readings)) (b.date (suc (suc w.readings)))
          (s.hash w.readings dto.password) dto

    abbrev pub created_state : World
    created_state = record w {
      users = (b.user.create account w.users).1;
      readings = suc (suc (suc w.readings));
    }

    account-free :
        IsUnused w dto
        → user_at w (b.uuid (suc w.readings)) ≡ none
        → b.user.find_first (user_conflicts account) w.users ≡ none
    unfolding new_user
    account-free unused fresh = clash-free account w fresh unused.email unused.nickname unused.phone

    pub create-stores :
        IsUnused w dto
        → user_at w (b.uuid (suc w.readings)) ≡ none
        → UsersService.create dto w ≡ (ok (without_password account), created_state)
    unfolding UsersService.create check_nickname
    create-stores unused fresh =
        rw
          (
            unused.email,
            unused.nickname,
            check_phone-passes dto.phone_number w unused.phone,
            (b.user.create_free account w.users (account-free unused fresh)).0,
          )
          refl

    pub created-found :
        IsUnused w dto
        → user_at w (b.uuid (suc w.readings)) ≡ none
        → (user_at created_state account.id ≡ some account)
          × (user_of_email created_state dto.email ≡ some account)
    unfolding new_user
    created-found unused fresh =
        let stored = (b.user.create_free account w.users (account-free unused fresh)).1 in
        let there : user_at created_state account.id ≡ some account =
          rw (stored account.id, eq_self account.id) refl in
        (
          there,
          found_by_email account created_state there (λ x at same.
              elim (Bool-cases (account.id == x.id)) [
                | inl here ↦ sym (eq_true here)
                | inr away ↦
                    let old : user_at w x.id ≡ some x = ground (arith, stored x.id, at, away) in
                    let differs = b.user.none_first _ w.users unused.email x.id x old in
                    absurd (ground (arith, differs, same, eq_iff x.email dto.email))
              ]),
        )
