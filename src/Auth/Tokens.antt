-- ===== src/Auth/Tokens.antt =====
-- Tokens of sessions. shared/jwt.ts, shared/tokenHash.ts, shared/password.ts,
-- modules/auth/auth.service.ts
use fsm_backend.Prelude.{ℕ, String, Bool, Option, str_eq}
use fsm_backend.Errors.{Thrown, app, Result, ok, err}
use fsm_backend.Auth.Types.{Env, Minted}

-- `RefreshClaims`
pub record RefreshClaims : Type 0 where
  pub sub : String
  pub sid : String

-- What `jwt.verify` does: it returns the claims, or throws a `TokenExpiredError` or another error.
pub data Verified : Type 0 where
  claims : RefreshClaims → Verified
  token_expired : Verified
  token_invalid : Verified

-- What the module takes from its libraries: jsonwebtoken with the two secrets and expiries of the
-- configuration, argon2, SHA-256, the runtime's treatment of letters and blanks, and the database's
-- comparison of texts with `mode: "insensitive"`.
pub record Libraries : Type 0 where
  pub sign_access : ℕ → String → String → String
  pub sign_refresh : ℕ → String → RefreshClaims → String
  pub verify_refresh_token : ℕ → String → Verified
  pub decode_token : String → Option RefreshClaims
  pub sha256 : String → String
  pub argon2_hash : String → String
  pub argon2_verify : String → String → Bool
  pub trim : String → String
  pub to_lower_case : String → String
  pub equals_insensitive : String → String → Bool

abbrev pub session_expired : Thrown
session_expired =
    app (record { message = "Refresh token expired"; status_code = 401; code = "SESSION_EXPIRED" })

abbrev pub jwt_refresh_invalid : Thrown
jwt_refresh_invalid =
    app (record {
      message = "Invalid refresh token";
      status_code = 401;
      code = "JWT_REFRESH_INVALID";
    })

module _ (x : Libraries) where
  -- `hashToken`
  abbrev pub hash_token : String → String
  hash_token token = x.sha256 token

  abbrev pub token_equals_hash : String → String → Bool
  token_equals_hash token hashed = str_eq (x.sha256 token) hashed

  pub verified : Verified → Result RefreshClaims
  verified (claims c) = ok c
  verified token_expired = err session_expired
  verified token_invalid = err jwt_refresh_invalid

  unfoldable pub verify_refresh : ℕ → String → Result RefreshClaims
  unfolding verified
  verify_refresh now token = verified (x.verify_refresh_token now token)

  unfoldable pub decode_refresh : String → Option RefreshClaims
  decode_refresh token = x.decode_token token

  unfoldable pub mint_session_tokens : Env → String → String → Minted
  mint_session_tokens env user_id session_id = record {
    access_token = x.sign_access env.now user_id session_id;
    refresh_token = x.sign_refresh env.now env.jwt_id (record { sub = user_id; sid = session_id });
  }

  abbrev pub normalize_email : String → String
  normalize_email email = x.to_lower_case (x.trim email)
