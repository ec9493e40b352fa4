-- ===== src/Users/Security.antt =====
-- The packages that src/modules/users/users.service.ts hands secrets to: bcrypt and @nestjs/jwt,
-- with the secrets of the configuration.
use secondhand_api.Prelude.{ℕ, String, Bool, true, ◌≡◌}
use secondhand_api.Schema.{Role}

pub data TokenType : Type 0 where
  access refresh : TokenType

-- What a token says. Its type decides its secret and how long it lasts.
pub record Claims : Type 0 where
  pub sub : String
  pub email : String
  pub role : Role
  pub kind : TokenType

pub record Security : Type 0 where
  -- bcrypt.hash(password, saltRounds), by the reading that gives its salt
  pub hash : ℕ → String → String
  -- bcrypt.compare(password, hash)
  pub matches : String → String → Bool
  -- jwtService.signAsync(claims, { secret, expiresIn }), by the reading that gives the time
  pub sign : Claims → ℕ → String
  -- A password matches each of its hashes.
  pub matches-hash : (salt : ℕ) (password : String) → matches password (hash salt password) ≡ true
