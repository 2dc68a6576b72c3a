-- ===== src/Service/Config.antt =====
-- internal/service/logging.go: what an AuthService holds besides its repositories.
use shelf_auth.Platform.{Duration}
use shelf_auth.Security.Password.{Options}
use shelf_auth.Tokens.{TokenSigner}

pub record AuthService : Type 0 where
  pub signer : TokenSigner
  pub access_ttl : Duration
  pub refresh_ttl : Duration
  pub pw_options : Options
