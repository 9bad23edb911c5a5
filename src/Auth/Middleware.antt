-- ===== src/Auth/Middleware.antt =====
-- `BearerTokenMiddleware.dispatch` of src/mcm_engine/transport.py: what becomes of a request.
use mcm_engine.Base.{
  String, Bool, not, none, some, List, [], ◌∷◌, ◌==◌, string_eq, ℕ, if◌then◌else◌, contains, strip,
  lower, strip_prefix, is_some,
}
use mcm_engine.Auth.Tokens.{Tokens, validate_token}

abbrev pub unauthenticated_paths : List String
unauthenticated_paths = "/healthz" ∷ "/readyz" ∷ []

pub record Request : Type 0 where
  pub path : String
  -- the header "authorization", "" where there is none
  pub authorization : String

pub data Outcome : Type 0 where
  -- the next handler is called, with no principal or with one
  call_next : Outcome
  call_as : String → Outcome
  -- 401, 500 and 401
  token_required : Outcome
  validation_error : Outcome
  invalid_token : Outcome

-- `header.split(" ", 1)[1]`
unfoldable pub after_space : String → String
after_space String.[] = String.[]
after_space (String.◌∷◌ c s) =
    let rest = after_space s in if String.◌∷◌ c String.[] == " " then s else rest

unfoldable pub is_bearer : String → Bool
unfolding lower strip_prefix
is_bearer header = is_some (strip_prefix "bearer " (lower header))

unfoldable pub presented : String → String
unfolding after_space strip
presented header = strip (after_space header)

module _ (sha256 : String → String) where
  -- `required` is `auth_required()`, `answers` that the database answers.
  unfoldable pub dispatch : Bool → Bool → ℕ → Request → Tokens → Outcome × Tokens
  unfolding validate_token is_bearer presented contains
  dispatch required answers now request t =
      if not required
      then (call_next, t)
      else if contains unauthenticated_paths request.path
      then (call_next, t)
      else if not (is_bearer request.authorization)
      then (token_required, t)
      else if not answers
      then (validation_error, t)
      else (
        (elim (validate_token sha256 (presented request.authorization) now t).0 [
          | none ↦ invalid_token
          | some principal ↦ call_as principal
        ]),
        (validate_token sha256 (presented request.authorization) now t).1,
      )
