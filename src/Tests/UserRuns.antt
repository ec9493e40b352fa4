-- ===== src/Tests/UserRuns.antt =====
-- The theorems on src/modules/users, applied to the market of the fixture.
use secondhand_api.Prelude.{◌≡◌, ◌↔◌, refl, false, some, none}
use secondhand_api.Http.{Exception, ok, err}
use secondhand_api.Schema.{User, pending, reserved, cancelled}
use secondhand_api.World.{World, order_at, product_at}
use secondhand_api.Prisma.Memory.{find, first_row, rows_of}
use secondhand_api.Tests.Fixture.{example_backend, example_security, market, deal, offer, member}
use secondhand_api.Tests.OrderRuns.{only_order, market-NoDoubleSale}
use secondhand_api.Market.Invariant.{NoDoubleSale}
use secondhand_api.Orders.Refinement.{view}
use secondhand_api.Users.UsersService
use secondhand_api.Users.UsersService.{
  CreateUserDto, LoginUserDto, Session, without_password, new_user,
}
use secondhand_api.Users.Accounts.{IsUnused, account}
use secondhand_api.Users.Logins.{CanLogin, login_iff, create-login}
use secondhand_api.Users.Leaving.{CanLeave, HasLeft, remove_iff, remove-HasLeft}
use secondhand_api.Users.Remaining.{remove-NoDoubleSale, remove-keeps_product}

abbrev newcomer : CreateUserDto
newcomer = record {
  email = "d@mail";
  password = "secret";
  nickname = "d";
  name = none;
  phone_number = some "010";
}

abbrev credentials : LoginUserDto
credentials = record { email = "b"; password = "b" }

newcomer-IsUnused : IsUnused (market pending) newcomer
unfolding find first_row rows_of
newcomer-IsUnused = record { email = refl; nickname = refl; phone = λ p e. refl }

create-login_example :
    (w' : World) × (UsersService.create newcomer (market pending)
      ≡ (ok (without_password (account newcomer (market pending))), w'))
    × (session : Session) × (w'' : World) × (UsersService.login
          (record { email = "d@mail"; password = "secret" })
          w'
        ≡ (ok session, w''))
    × (session.user ≡ without_password (account newcomer (market pending)))
unfolding find
create-login_example = create-login newcomer (market pending) newcomer-IsUnused refl

login_iff_example :
    (((session : Session) × ((UsersService.login credentials (market pending)).0 ≡ ok session))
      ↔ ((u : User) × CanLogin (market pending) credentials u))
    × (((u : User) → ¬ CanLogin (market pending) credentials u)
        → (e : Exception) × (UsersService.login credentials (market pending)
            ≡ (err e, market pending)))
login_iff_example = login_iff credentials (market pending)

b-CanLeave : CanLeave "b" (market pending) (member "b")
unfolding find
b-CanLeave = record {
  found = refl;
  is_active = refl;
  settled = λ k o there member. let (_, same) = only_order k o pending there in rw (← same) refl;
}

remove_iff_example :
    (((u : User) × ((UsersService.remove "b" (market pending)).0 ≡ ok u))
      ↔ ((u : User) × CanLeave "b" (market pending) u))
    × (((u : User) → ¬ CanLeave "b" (market pending) u)
        → (e : Exception) × (UsersService.remove "b" (market pending) ≡ (err e, market pending)))
remove_iff_example = remove_iff "b" (market pending)

remove-HasLeft_example :
    (w' : World) × (UsersService.remove "b" (market pending)
      ≡ (ok (record (member "b") { is_active = false }), w'))
    × HasLeft "b" (market pending) (member "b") w'
remove-HasLeft_example = remove-HasLeft "b" (market pending) (member "b") b-CanLeave

remove-NoDoubleSale_example : NoDoubleSale (view (UsersService.remove "b" (market pending)).1)
remove-NoDoubleSale_example = remove-NoDoubleSale "b" (market pending) market-NoDoubleSale

remove-keeps_product_example :
    (w' : World) × (UsersService.remove "b" (market pending)
      ≡ (ok (record (member "b") { is_active = false }), w'))
    × (order_at w' "o1" ≡ some (record (deal pending) { status = cancelled }))
    × (product_at w' "p2" ≡ some (offer "p2" reserved))
unfolding find
remove-keeps_product_example =
    remove-keeps_product "b" (market pending) (member "b") (deal pending) (offer "p2" reserved)
      b-CanLeave refl refl refl refl
