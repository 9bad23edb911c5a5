-- ===== src/Auth/Revoked.antt =====
-- A token that `revoke_token` of src/mcm_engine/tokens.py has revoked is refused for good.
use Prim.Native.String.{◌++◌}
use mcm_engine.Base.{
  ℕ, ◌≡◌, refl, sym, ap, ◌∙◌, String, true, false, none, List, [], ◌∷◌, ◌==◌, string_eq, nat_eq,
  any, map, strip, arith, Bool-cases, Option-cases, inl, inr, contains, subst,
}
use mcm_engine.Auth.Tokens.{
  TokenRow, Tokens, has_hash, is_live, fetch_live, touch, revoke_row, mint_token, validate_token,
  revoke_token, Command, mint, validate, revoke, execute, execute_all,
}
use mcm_engine.Auth.Middleware.{
  Request, invalid_token, unauthenticated_paths, is_bearer, presented, dispatch,
}

-- The hash stands in the table, and no live row has it.
pub record IsRevoked (hash : String) (t : Tokens) : Type 0 where
  pub stored : has_hash hash t.rows ≡ true
  pub dead : any (is_live hash) t.rows ≡ false

-- A change of the rows that keeps their hashes and brings none to life.
Keeps : String → (TokenRow → TokenRow) → Type 0
Keeps hash change =
    (row : TokenRow)
    → ((change row).token_hash ≡ row.token_hash)
      × (is_live hash row ≡ false → is_live hash (change row) ≡ false)

has_hash-map :
    (hash : String) (change : TokenRow → TokenRow) (rows : List TokenRow)
    → Keeps hash change
    → has_hash hash (map change rows) ≡ has_hash hash rows
unfolding Keeps
has_hash-map hash change [] k = refl
has_hash-map hash change (row ∷ rows) k = rw ((k row).0, has_hash-map hash change rows k) refl

dead-map :
    (hash : String) (change : TokenRow → TokenRow) (rows : List TokenRow)
    → Keeps hash change
    → any (is_live hash) rows ≡ false
    → any (is_live hash) (map change rows) ≡ false
unfolding Keeps
dead-map hash change [] k h = refl
dead-map hash change (row ∷ rows) k h =
    let head : is_live hash row ≡ false = ground (arith, h) in
    let tail : any (is_live hash) rows ≡ false = ground (arith, h) in
    rw ((k row).1 head, dead-map hash change rows k tail) refl

IsRevoked-map :
    (hash : String) (change : TokenRow → TokenRow) (t : Tokens)
    → Keeps hash change
    → IsRevoked hash t
    → IsRevoked hash (record t { rows = map change t.rows })
IsRevoked-map hash change t k h = record {
  stored = has_hash-map hash change t.rows k ∙ h.stored;
  dead = dead-map hash change t.rows k h.dead;
}

Keeps-touch : (hash : String) (id now : ℕ) → Keeps hash (touch id now)
unfolding Keeps
Keeps-touch hash id now row = (ground arith, λ h. ground (arith, h))

Keeps-revoke_row : (hash other : String) (now : ℕ) → Keeps hash (revoke_row other now)
unfolding Keeps
Keeps-revoke_row hash other now row = (ground arith, λ h. ground (arith, h))

revoked_dead :
    (hash : String) (now : ℕ) (rows : List TokenRow)
    → any (is_live hash) (map (revoke_row hash now) rows) ≡ false
revoked_dead hash now [] = refl
revoked_dead hash now (row ∷ rows) =
    let head : is_live hash (revoke_row hash now row) ≡ false = ground arith in
    rw (head, revoked_dead hash now rows) refl

live-has_hash :
    (hash : String) (rows : List TokenRow)
    → any (is_live hash) rows ≡ true
    → has_hash hash rows ≡ true
live-has_hash hash [] h = absurd (ground arith)
live-has_hash hash (row ∷ rows) h = ground (arith, h, live-has_hash hash rows)

pub fetch_live-dead :
    (hash : String) (rows : List TokenRow)
    → any (is_live hash) rows ≡ false
    → fetch_live hash rows ≡ none
unfolding fetch_live
fetch_live-dead hash [] h = refl
fetch_live-dead hash (row ∷ rows) h =
    let head : is_live hash row ≡ false = ground (arith, h) in
    let tail : any (is_live hash) rows ≡ false = ground (arith, h) in
    rw (fetch_live, head) (fetch_live-dead hash rows tail)

module _ (sha256 : String → String) where
  execute-IsRevoked :
      (hash : String) (now : ℕ) (command : Command) (t : Tokens)
      → IsRevoked hash t
      → IsRevoked hash (execute sha256 now command t)
  unfolding execute mint_token validate_token revoke_token
  execute-IsRevoked hash now (mint random principal) t h =
      let new = sha256 ("lst_" ++ random) in
      elim (Bool-cases (strip principal == "")) [
        | inl c ↦ rw (execute, mint_token, c) h
        | inr c ↦ elim (Bool-cases (has_hash new t.rows)) [
          | inl d ↦ rw (execute, mint_token, c, d) h
          | inr d ↦
              let other : (new == hash) ≡ false =
                ground
                  (arith, h.stored, ap (λ k. has_hash k t.rows), (string_eq.same_iff new hash).0) in
              rw (execute, mint_token, c, d)
                (record { stored = rw (other, h.stored) refl; dead = rw (other, h.dead) refl })
        ]
      ]
  execute-IsRevoked hash now (validate plaintext) t h =
      elim (Option-cases (fetch_live (sha256 plaintext) t.rows)) [
        | inl p ↦ rw (execute, validate_token, p) h
        | inr (row, p) ↦
            rw (execute, validate_token, p)
              (IsRevoked-map hash (touch row.id now) t (Keeps-touch hash row.id now) h)
      ]
  execute-IsRevoked hash now (revoke plaintext) t h =
      IsRevoked-map hash (revoke_row (sha256 plaintext) now) t
        (Keeps-revoke_row hash (sha256 plaintext) now) h

  execute_all-IsRevoked :
      (hash : String) (commands : List (ℕ × Command)) (t : Tokens)
      → IsRevoked hash t
      → IsRevoked hash (execute_all sha256 commands t)
  unfolding execute_all
  execute_all-IsRevoked hash [] t h = h
  execute_all-IsRevoked hash ((now, command) ∷ commands) t h =
      execute_all-IsRevoked hash commands (execute sha256 now command t)
        (execute-IsRevoked hash now command t h)

  revoke_token-IsRevoked :
      (plaintext : String) (now : ℕ) (t : Tokens)
      → (revoke_token sha256 plaintext now t).0 ≡ true
      → IsRevoked (sha256 plaintext) (revoke_token sha256 plaintext now t).1
  unfolding revoke_token
  revoke_token-IsRevoked plaintext now t h =
      let hash = sha256 plaintext in
      record {
        stored =
            has_hash-map hash (revoke_row hash now) t.rows (Keeps-revoke_row hash hash now)
            ∙ live-has_hash hash t.rows h;
        dead = revoked_dead hash now t.rows;
      }

  -- After a token is revoked, where `revoke_token` returns True, and after any later mints, validations
  -- and revocations of any tokens, a request that presents it, where a token is required, the path asks
  -- for one and the database answers, is refused as invalid, and nothing is written.
  pub revoked_refused :
      (plaintext : String) (now later : ℕ) (commands : List (ℕ × Command)) (request : Request)
      (t : Tokens)
      → (revoke_token sha256 plaintext now t).0 ≡ true
      → contains unauthenticated_paths request.path ≡ false
      → is_bearer request.authorization ≡ true
      → presented request.authorization ≡ plaintext
      → dispatch sha256 true true later request
          (execute_all sha256 commands (revoke_token sha256 plaintext now t).1)
        ≡ (invalid_token, execute_all sha256 commands (revoke_token sha256 plaintext now t).1)
  unfolding dispatch validate_token
  revoked_refused plaintext now later commands request t r c b p =
      let after = execute_all sha256 commands (revoke_token sha256 plaintext now t).1 in
      let refused =
        fetch_live-dead (sha256 plaintext) after.rows
          (execute_all-IsRevoked (sha256 plaintext) commands (revoke_token sha256 plaintext now t).1
            (revoke_token-IsRevoked plaintext now t r)).dead in
      let here : fetch_live (sha256 (presented request.authorization)) after.rows ≡ none =
        subst (λ w. fetch_live (sha256 w) after.rows ≡ none) (sym p) refused in
      rw (dispatch, c, b, validate_token, here) refl
