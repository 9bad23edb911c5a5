-- ===== src/Auth/Tokens.antt =====
-- src/mcm_engine/tokens.py over the table `tokens`, the newest row first; `token_hash` is unique in it.
-- SHA-256 is a parameter, and so is what `secrets.token_urlsafe` gives.
use Prim.Native.String.{◌++◌}
use mcm_engine.Base.{
  ℕ, ◌+◌, String, Bool, not, ◌&&◌, Option, none, some, List, [], ◌∷◌, ◌==◌, string_eq, nat_eq,
  if◌then◌else◌, any, map, strip, is_some,
}

pub record TokenRow : Type 0 where
  pub id : ℕ
  pub token_hash : String
  pub principal : String
  pub revoked_at : Option ℕ
  pub last_used_at : Option ℕ

pub record Tokens : Type 0 where
  pub rows : List TokenRow
  pub next_id : ℕ

pub record MintedToken : Type 0 where
  pub plaintext : String
  pub principal : String

-- What `mint_token` does: it raises a ValueError or an IntegrityError, or it returns a token.
pub data Minted : Type 0 where
  no_principal : Minted
  hash_taken : Minted
  minted : MintedToken → Minted

abbrev pub has_hash : String → List TokenRow → Bool
has_hash hash rows = any (λ row. row.token_hash == hash) rows

-- `token_hash = %s AND revoked_at IS NULL`
abbrev pub is_live : String → TokenRow → Bool
is_live hash row = row.token_hash == hash && not (is_some row.revoked_at)

unfoldable pub fetch_live : String → List TokenRow → Option TokenRow
fetch_live hash [] = none
fetch_live hash (row ∷ rows) =
    let later = fetch_live hash rows in if is_live hash row then some row else later

abbrev pub touch : ℕ → ℕ → TokenRow → TokenRow
touch id now row = if row.id == id then record row { last_used_at = some now } else row

abbrev pub revoke_row : String → ℕ → TokenRow → TokenRow
revoke_row hash now row = if is_live hash row then record row { revoked_at = some now } else row

module _ (sha256 : String → String) where
  unfoldable pub mint_token : String → String → Tokens → Minted × Tokens
  unfolding strip
  mint_token random principal t =
      let plaintext = "lst_" ++ random in
      if strip principal == ""
      then (no_principal, t)
      else if has_hash (sha256 plaintext) t.rows
      then (hash_taken, t)
      else (
        minted (record { plaintext = plaintext; principal = strip principal }),
        record {
          rows =
              record {
                id = t.next_id;
                token_hash = sha256 plaintext;
                principal = strip principal;
                revoked_at = none;
                last_used_at = none;
              }
              ∷ t.rows;
          next_id = t.next_id + 1;
        },
      )

  unfoldable pub validate_token : String → ℕ → Tokens → Option String × Tokens
  unfolding fetch_live
  validate_token plaintext now t = elim (fetch_live (sha256 plaintext) t.rows) [
    | none ↦ (none, t)
    | some row ↦ (some row.principal, record t { rows = map (touch row.id now) t.rows })
  ]

  unfoldable pub revoke_token : String → ℕ → Tokens → Bool × Tokens
  revoke_token plaintext now t = (
    any (is_live (sha256 plaintext)) t.rows,
    record t { rows = map (revoke_row (sha256 plaintext) now) t.rows },
  )

pub data Command : Type 0 where
  mint : String → String → Command
  validate : String → Command
  revoke : String → Command

module _ (sha256 : String → String) where
  unfoldable pub execute : ℕ → Command → Tokens → Tokens
  unfolding mint_token validate_token revoke_token
  execute now (mint random principal) t = (mint_token sha256 random principal t).1
  execute now (validate plaintext) t = (validate_token sha256 plaintext now t).1
  execute now (revoke plaintext) t = (revoke_token sha256 plaintext now t).1

  -- The commands, each with its time.
  unfoldable pub execute_all : List (ℕ × Command) → Tokens → Tokens
  unfolding execute
  execute_all [] t = t
  execute_all ((now, command) ∷ commands) t = execute_all commands (execute now command t)
