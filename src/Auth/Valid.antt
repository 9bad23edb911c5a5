-- ===== src/Auth/Valid.antt =====
-- A token that `mint_token` of src/mcm_engine/tokens.py has given out is accepted until it is revoked.
use Prim.Native.String.{◌++◌}
use mcm_engine.Base.{
  ℕ, ◌≡◌, refl, ap, ◌∙◌, String, Bool, true, false, not, Option, none, some, List, [], ◌∷◌, ◌==◌,
  string_eq, nat_eq, map, strip, arith, Bool-cases, Option-cases, inl, inr, map_option, All,
  same_refl, subst,
}
use mathlib.Core.Option.{some-injective}
use mcm_engine.Auth.Tokens.{
  TokenRow, Tokens, MintedToken, Minted, minted, has_hash, is_live, fetch_live, touch, revoke_row,
  mint_token, validate_token, revoke_token, Command, mint, validate, revoke, execute, execute_all,
}

token_of : Minted → Option MintedToken
token_of (minted token) = some token
token_of _ = none

-- The principal that the live row of the hash names.
abbrev owner : String → List TokenRow → Option String
owner hash rows = map_option (λ (row : TokenRow). row.principal) (fetch_live hash rows)

-- A change of the rows that the hash's live row does not show.
Spared : String → (TokenRow → TokenRow) → Type 0
Spared hash change =
    (row : TokenRow)
    → (is_live hash (change row) ≡ is_live hash row) × ((change row).principal ≡ row.principal)

owner-map :
    (hash : String) (change : TokenRow → TokenRow) (rows : List TokenRow)
    → Spared hash change
    → owner hash (map change rows) ≡ owner hash rows
unfolding fetch_live Spared
owner-map hash change [] k = refl
owner-map hash change (row ∷ rows) k =
    let (live, named) = k row in
    elim (Bool-cases (is_live hash row)) [
      | inl c ↦ rw (fetch_live, live, c) (ap some named)
      | inr c ↦ rw (fetch_live, live, c) (owner-map hash change rows k)
    ]

owner-has_hash :
    (hash principal : String) (rows : List TokenRow)
    → owner hash rows ≡ some principal
    → has_hash hash rows ≡ true
unfolding fetch_live
owner-has_hash hash principal [] h = absurd (ground arith)
owner-has_hash hash principal (row ∷ rows) h = elim (Bool-cases (is_live hash row)) [
  | inl c ↦ ground (arith, c)
  | inr c ↦
      let tail : owner hash rows ≡ some principal = rw (fetch_live, c) at h in
      rw (owner-has_hash hash principal rows tail) (ground arith)
]

Spared-touch : (hash : String) (id now : ℕ) → Spared hash (touch id now)
unfolding Spared
Spared-touch hash id now row = (ground arith, ground arith)

Spared-revoke_row :
    (hash other : String) (now : ℕ) → (other == hash) ≡ false → Spared hash (revoke_row other now)
unfolding Spared
Spared-revoke_row hash other now h row = elim (Bool-cases (is_live other row)) [
  | inl c ↦
      let own : row.token_hash ≡ other =
        (string_eq.same_iff row.token_hash other).0 (ground (arith, c)) in
      let off : (row.token_hash == hash) ≡ false = ap (λ k. k == hash) own ∙ h in
      rw c (rw off (refl, refl))
  | inr c ↦ rw c (refl, refl)
]

module _ (sha256 : String → String) where
  -- The command revokes no token with the hash.
  abbrev pub spares : String → Command → Bool
  spares hash (revoke plaintext) = not (sha256 plaintext == hash)
  spares hash _ = true

  execute-owner :
      (hash principal : String) (now : ℕ) (command : Command) (t : Tokens)
      → spares hash command ≡ true
      → owner hash t.rows ≡ some principal
      → owner hash (execute sha256 now command t).rows ≡ some principal
  unfolding execute mint_token validate_token revoke_token fetch_live
  execute-owner hash principal now (mint random name) t s h =
      let new = sha256 ("lst_" ++ random) in
      elim (Bool-cases (strip name == "")) [
        | inl c ↦ rw (execute, mint_token, c) h
        | inr c ↦ elim (Bool-cases (has_hash new t.rows)) [
          | inl d ↦ rw (execute, mint_token, c, d) h
          | inr d ↦
              let stored = owner-has_hash hash principal t.rows h in
              let other : (new == hash) ≡ false =
                ground
                  (arith, stored, ap (λ k. has_hash k t.rows), (string_eq.same_iff new hash).0) in
              rw (execute, mint_token, c, d) (rw (fetch_live, other) h)
        ]
      ]
  execute-owner hash principal now (validate plaintext) t s h =
      elim (Option-cases (fetch_live (sha256 plaintext) t.rows)) [
        | inl p ↦ rw (execute, validate_token, p) h
        | inr (row, p) ↦
            rw (execute, validate_token, p)
              (owner-map hash (touch row.id now) t.rows (Spared-touch hash row.id now) ∙ h)
      ]
  execute-owner hash principal now (revoke plaintext) t s h =
      owner-map hash (revoke_row (sha256 plaintext) now) t.rows
        (Spared-revoke_row hash (sha256 plaintext) now (ground (arith, s)))
      ∙ h

  execute_all-owner :
      (hash principal : String) (commands : List (ℕ × Command)) (t : Tokens)
      → All (λ (entry : ℕ × Command). spares hash entry.1 ≡ true) commands
      → owner hash t.rows ≡ some principal
      → owner hash (execute_all sha256 commands t).rows ≡ some principal
  unfolding execute_all
  execute_all-owner hash principal [] t s h = h
  execute_all-owner hash principal ((now, command) ∷ commands) t (s, rest) h =
      execute_all-owner hash principal commands (execute sha256 now command t) rest
        (execute-owner hash principal now command t s h)

  mint_token-owner :
      (random principal : String) (token : MintedToken) (t : Tokens)
      → (mint_token sha256 random principal t).0 ≡ minted token
      → (owner (sha256 token.plaintext) (mint_token sha256 random principal t).1.rows
          ≡ some token.principal)
        × (token.principal ≡ strip principal)
  unfolding mint_token fetch_live token_of
  mint_token-owner random principal token t h = elim (Bool-cases (strip principal == "")) [
    | inl c ↦ absurd (cc (ap token_of (rw (mint_token, c) at h)))
    | inr c ↦
        let new = "lst_" ++ random in
        elim (Bool-cases (has_hash (sha256 new) t.rows)) [
          | inl d ↦ absurd (cc (ap token_of (rw (mint_token, c, d) at h)))
          | inr d ↦
              let given : MintedToken = record { plaintext = new; principal = strip principal } in
              let is_given : given ≡ token =
                some-injective given token (ap token_of (rw (mint_token, c, d) at h)) in
              let here = same_refl (sha256 new) in
              rw (mint_token, c, d)
                (subst
                  (λ (tok : MintedToken).
                    (owner (sha256 tok.plaintext) (
                        record {
                          id = t.next_id;
                          token_hash = sha256 new;
                          principal = strip principal;
                          revoked_at = none;
                          last_used_at = none;
                        }
                        ∷ t.rows)
                      ≡ some tok.principal)
                    × (tok.principal ≡ strip principal))
                  is_given (rw (fetch_live, here) refl, refl))
        ]
  ]

  validate_token-owner :
      (plaintext principal : String) (now : ℕ) (t : Tokens)
      → owner (sha256 plaintext) t.rows ≡ some principal
      → (validate_token sha256 plaintext now t).0 ≡ some principal
  unfolding validate_token
  validate_token-owner plaintext principal now t h =
      elim (Option-cases (fetch_live (sha256 plaintext) t.rows)) [
        | inl p ↦ absurd (cc (p, h))
        | inr (row, p) ↦
            rw (validate_token, p)
              (subst (λ o. map_option (λ (row : TokenRow). row.principal) o ≡ some principal) p h)
      ]

  -- A token that was minted is validated as its principal, the one asked for without white space around
  -- it, after any later mints, any validations and any revocations of tokens with other hashes.
  pub minted_valid :
      (random principal : String) (token : MintedToken) (now : ℕ) (commands : List (ℕ × Command))
      (t : Tokens)
      → (mint_token sha256 random principal t).0 ≡ minted token
      → All (λ (entry : ℕ × Command). spares (sha256 token.plaintext) entry.1 ≡ true) commands
      → (validate_token sha256 token.plaintext now
          (execute_all sha256 commands (mint_token sha256 random principal t).1)).0
        ≡ some (strip principal)
  minted_valid random principal token now commands t m s =
      let (owned, named) = mint_token-owner random principal token t m in
      validate_token-owner token.plaintext (strip principal) now _ (
        execute_all-owner (sha256 token.plaintext) (strip principal) commands
          (mint_token sha256 random principal t).1 s (owned ∙ ap some named))
