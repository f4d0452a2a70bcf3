-- ===== src/Db/Auth/Types.antt =====
-- What the methods of AuthStore answer (internal/db/auth.go).

-- `driver`: the driver reported an error; `duplicate`: a unique index refused the row; `bad_json`:
-- the stored payload does not parse; `too_large`: an input is over its size limit; `unexpected`:
-- the answer of the delete statement makes no sense.
pub data AuthError : Type 0 where
  driver duplicate bad_json too_large unexpected : AuthError
  user_already_exists user_not_found invalid_login challenge_empty invalid_challenge : AuthError
  credential_not_found last_credential display_name_too_long already_finalized invalid_allowed_ips :
      AuthError

pub data Result {ℓ} (A : Type ℓ) : Type ℓ where
  ok : A → Result A
  err : AuthError → Result A
