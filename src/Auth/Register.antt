-- ===== src/Auth/Register.antt =====
-- Registration. modules/auth/auth.service.ts
use Prim.Native.String.{◌∷◌ as text_cons, [] as text_nil}
use text.Mathlib.Text.{starts_with}
use fsm_backend.Prelude.{
  [], ◌∷◌, String, Bool, true, false, ◌||◌, Option, none, some, List, str_eq, if◌then◌else◌,
}
use fsm_backend.Errors.{
  Thrown, app, prisma, plain, p2002, p2025, Result, ok, err, M, ◌>>=◌, ◌>>◌, return, throw, gets,
  commit, transaction,
}
use fsm_backend.Prisma.{Database, unordered}
use fsm_backend.Auth.Types.{User, Store, Env, AuthConfig, Credentials, user_unique}
use fsm_backend.Auth.Tokens.{normalize_email, Libraries}
use fsm_backend.Auth.Lockout.{open_session}
use fsm_backend.Auth.Issue.{create_verification_token}

-- `RegisterResult`
pub record RegisterResult : Type 0 where
  pub access_token : Option String
  pub refresh_token : Option String
  pub email_verification_required : Bool
  pub verification_token : Option String

abbrev pub email_taken : Thrown
email_taken =
    app (record { message = "Email already registered"; status_code = 409; code = "EMAIL_TAKEN" })

-- `String(target ?? "").includes("email")` for the columns joined by commas; "email" has no comma.
abbrev pub includes : String → String → Bool
includes text_nil part = starts_with text_nil part
includes (text_cons c text) part = starts_with (text_cons c text) part || includes text part

abbrev pub any_includes : List String → String → Bool
any_includes [] part = false
any_includes (t ∷ ts) part = includes t part || any_includes ts part

abbrev pub is_email_taken : Thrown → Bool
is_email_taken (prisma (p2002 target)) = any_includes target "email"
is_email_taken (prisma p2025) = false
is_email_taken (app e) = false
is_email_taken (plain m) = false

module _ (p : Database) (x : Libraries) (env : Env) (auth : AuthConfig) where
  abbrev pub new_user : String → String → User
  new_user email password = record {
    id = env.user_id;
    email = email;
    password = password;
    email_verified_at = if auth.email_verification_required then none else some env.now;
    created_at = env.now;
  }

  unfoldable pub create_user : User → M (Store p) (Unit {0})
  create_user u s = commit s (λ t. record s { users = t }) (p.create user_unique u s.users)

  -- The rest of the transaction, by whether the email must be verified.
  unfoldable pub finish : Bool → M (Store p) RegisterResult
  finish true = do
    token ← create_verification_token p x env auth env.user_id
    return (record {
      access_token = none;
      refresh_token = none;
      email_verification_required = true;
      verification_token = some token;
    })
  finish false = do
    minted ← open_session p auth env x env.user_id
    return (record {
      access_token = some minted.access_token;
      refresh_token = some minted.refresh_token;
      email_verification_required = false;
      verification_token = none;
    })

  register_new : String → String → M (Store p) RegisterResult
  register_new email password = do
    create_user (new_user email (x.argon2_hash password))
    finish auth.email_verification_required

  abbrev pub catch_taken : Result RegisterResult × Store p → Result RegisterResult × Store p
  catch_taken (ok r, s) = (ok r, s)
  catch_taken (err e, s) = (err (if is_email_taken e then email_taken else e), s)

  register_unless : String → String → Option User → M (Store p) RegisterResult
  register_unless email password (some existing) = throw email_taken
  register_unless email password none =
      λ s. catch_taken (transaction (register_new email password) s)

  -- Sending the email is left out.
  unfoldable pub register : Credentials → M (Store p) RegisterResult
  unfolding register_new register_unless
  register input = do
    let email = normalize_email x input.email
    existing ← gets λ s. p.find_first unordered (λ u. str_eq u.email email) s.users
    register_unless email input.password existing
