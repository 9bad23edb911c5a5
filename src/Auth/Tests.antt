-- ===== src/Auth/Tests.antt =====
-- A token, minted and revoked, and the theorems at it. The digest of a text is the text itself.
use mcm_engine.Base.{
  ℕ, ◌≡◌, refl, String, true, false, some, List, [], ◌∷◌, strip, contains, lower, strip_prefix,
  string_eq,
}
use mcm_engine.Auth.Tokens.{
  Tokens, MintedToken, minted, mint_token, validate_token, revoke_token, Command, mint, validate,
  revoke, execute_all,
}
use mcm_engine.Auth.Middleware.{
  Request, invalid_token, unauthenticated_paths, is_bearer, presented, after_space, dispatch,
}
use mcm_engine.Auth.Revoked.{revoked_refused}
use mcm_engine.Auth.Valid.{minted_valid}

abbrev text_hash : String → String
text_hash s = s

abbrev no_tokens : Tokens
no_tokens = record { rows = []; next_id = 1 }

abbrev token : MintedToken
token = record { plaintext = "lst_abc"; principal = "ci" }

abbrev issued : Tokens
issued = (mint_token text_hash "abc" " ci " no_tokens).1

abbrev later_commands : List (ℕ × Command)
later_commands = (5, validate "lst_abc") ∷ (6, mint "xyz" "dev") ∷ (7, revoke "lst_xyz") ∷ []

abbrev request : Request
request = record { path = "/mcp"; authorization = "Bearer lst_abc" }

is_minted : (mint_token text_hash "abc" " ci " no_tokens).0 ≡ minted token
unfolding mint_token strip
is_minted = refl

is_revoked : (revoke_token text_hash "lst_abc" 9 issued).0 ≡ true
unfolding revoke_token mint_token strip
is_revoked = refl

asks : contains unauthenticated_paths "/mcp" ≡ false
unfolding contains
asks = refl

has_bearer : is_bearer "Bearer lst_abc" ≡ true
unfolding is_bearer lower strip_prefix
has_bearer = refl

presents : presented "Bearer lst_abc" ≡ "lst_abc"
unfolding presented after_space strip
presents = refl

revoked_refused_example :
    dispatch text_hash true true 12 request
      (execute_all text_hash later_commands (revoke_token text_hash "lst_abc" 9 issued).1)
    ≡ (
      invalid_token,
      execute_all text_hash later_commands (revoke_token text_hash "lst_abc" 9 issued).1,
    )
revoked_refused_example =
    revoked_refused text_hash "lst_abc" 9 12 later_commands request issued is_revoked asks
      has_bearer presents

minted_valid_example :
    (validate_token text_hash "lst_abc" 12 (execute_all text_hash later_commands issued)).0
    ≡ some (strip " ci ")
minted_valid_example =
    minted_valid text_hash "abc" " ci " token 12 later_commands no_tokens is_minted
      (refl, (refl, (refl, tt)))
