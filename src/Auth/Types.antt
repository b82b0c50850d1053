-- ===== src/Auth/Types.antt =====
-- The tables of authentication. prisma/schema.prisma, modules/auth/auth.service.ts
use fsm_backend.Prelude.{ℕ, String, Bool, Option, List, [], ◌∷◌, ◌&&◌, str_eq}
use fsm_backend.Prisma.{Unique, Database}

-- The columns that the service reads or writes; `role` is not among them.
pub record User : Type 0 where
  pub id : String
  pub email : String
  pub password : String
  pub email_verified_at : Option ℕ
  pub created_at : ℕ

pub record Session : Type 0 where
  pub id : String
  pub user_id : String
  pub token : String
  pub valid : Bool
  pub created_at : ℕ

-- `VerificationToken` and `PasswordResetToken`, two tables with the same columns.
pub record OneTimeToken : Type 0 where
  pub id : String
  pub user_id : String
  pub token_hash : String
  pub expires_at : ℕ
  pub used_at : Option ℕ
  pub created_at : ℕ

pub record LoginAttempt : Type 0 where
  pub id : String
  pub user_id : Option String
  pub email_lowercase : String
  pub ip_address : String
  pub fail_count : ℕ
  pub locked_until : Option ℕ
  pub first_failed_at : ℕ
  pub last_failed_at : ℕ

-- The primary key, and `@@unique([emailLowercase, ipAddress])`
abbrev pub attempt_unique : List (Unique LoginAttempt)
attempt_unique =
    record { target = "id" ∷ []; clash = λ a b. str_eq a.id b.id }
    ∷ record {
      target = "emailLowercase" ∷ "ipAddress" ∷ [];
      clash = λ a b. str_eq a.email_lowercase b.email_lowercase && str_eq a.ip_address b.ip_address;
    }
    ∷ []

-- The primary key, and `tokenHash String @unique`
abbrev pub token_unique : List (Unique OneTimeToken)
token_unique =
    record { target = "id" ∷ []; clash = λ a b. str_eq a.id b.id }
    ∷ record { target = "tokenHash" ∷ []; clash = λ a b. str_eq a.token_hash b.token_hash }
    ∷ []

-- The primary key, and `email String @unique`
abbrev pub user_unique : List (Unique User)
user_unique =
    record { target = "id" ∷ []; clash = λ a b. str_eq a.id b.id }
    ∷ record { target = "email" ∷ []; clash = λ a b. str_eq a.email b.email }
    ∷ []

abbrev pub session_unique : List (Unique Session)
session_unique = record { target = "id" ∷ []; clash = λ a b. str_eq a.id b.id } ∷ []

pub record Store (p : Database) : Type 0 where
  pub users : p.Table User
  pub sessions : p.Table Session
  pub attempts : p.Table LoginAttempt
  pub verification_tokens : p.Table OneTimeToken
  pub reset_tokens : p.Table OneTimeToken

-- `getConfig().auth`: durations in milliseconds.
pub record AuthConfig : Type 0 where
  pub email_verification_required : Bool
  pub login_attempt_window_ms : ℕ
  pub login_max_attempts : ℕ
  pub login_lockout_ms : ℕ
  pub email_verification_ttl_ms : ℕ
  pub password_reset_ttl_ms : ℕ

-- The clock, and the identifiers made during a request: `randomUUID()` for a session and for the
-- `jwtid` of a token, the random text and the row's id for each attempt to make a one-time token, and
-- the ids of a new `LoginAttempt` and of a new `User`.
pub record Env : Type 0 where
  pub now : ℕ
  pub session_id : String
  pub jwt_id : String
  pub attempt_id : String
  pub user_id : String
  pub random_token : ℕ → String
  pub token_id : ℕ → String

pub record Credentials : Type 0 where
  pub email : String
  pub password : String

pub record Minted : Type 0 where
  pub access_token : String
  pub refresh_token : String
