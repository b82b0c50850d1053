-- ===== src/Access/Hidden.antt =====
-- What an answer to an error does not reveal. http/middleware/errorHandler.ts
use fsm_backend.Prelude.{
  ltb, arith, ◌==◌, ◌+◌, ℕ, String, Option, none, some, List, map, ◌≡◌, refl, ap, true, false,
}
use fsm_backend.Access.Handler.{Issue, Raised, zod, app_error, other, short_issue, handle_error}

-- Two errors that differ only in what the outside must not see: the message and the code of an error
-- with `expose: false`, the message of an error without a status, and of an issue all but its path and
-- its code.
pub data IsSameOutside : Raised → Raised → Type 0 where
  same_issues :
      (is js : List Issue)
      → map short_issue is ≡ map short_issue js
      → IsSameOutside (zod is) (zod js)
  unexposed :
      (status : ℕ) (m n : String) (c d : Option String)
      → IsSameOutside (app_error m status c (some false)) (app_error n status d (some false))
  -- with `expose` undefined, from 500 on
  internal :
      (k : ℕ) (m n : String) (c d : Option String)
      → IsSameOutside (app_error m (500 + k) c none) (app_error n (500 + k) d none)
  unknown : (m n : String) → IsSameOutside (other none none m) (other none none n)

-- In production two errors get the same answer if they differ only in the message and code of an
-- AppError that is not to be exposed or has no setting and a status from 500 on, in the message of
-- an error without a status, or in what validation issues hold beyond path and code.
pub handle_error-IsSameOutside :
    (a b : Raised) → IsSameOutside a b → handle_error true a ≡ handle_error true b
unfolding handle_error
handle_error-IsSameOutside a b (same_issues is js h) =
    ap
      (λ d. record {
        status = 400;
        message = "Invalid request payload";
        code = some "VALIDATION";
        details = some d;
      })
      h
handle_error-IsSameOutside a b (unexposed status m n c d) = refl
handle_error-IsSameOutside a b (internal k m n c d) =
    let nonzero : (500 + k == 0) ≡ false = ground arith in
    let high : ltb (500 + k) 500 ≡ false = ground arith in rw (nonzero, high)
handle_error-IsSameOutside a b (unknown m n) = refl
