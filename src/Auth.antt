-- ===== src/Auth.antt =====
-- internal/auth: Verify, verifyHMAC, verifyToken and buildHMACPayload. The request is its headers,
-- and the packages strings, crypto/hmac and encoding/hex are the functions of `Library`.
mod Examples
use general_webhook.Base.{
  String, Bool, true, false, not, Option, none, some, List, [], ◌∷◌, ◌≡◌, refl, arith, str_eq,
  eq_iff, eq_refl, ◌&&◌, ◌||◌, if◌then◌else◌, Bool-cases, inl, inr, ◌⊎◌, sym, ◌∙◌, subst,
}
use Prim.Native.String.{◌++◌}
use general_webhook.Config.{AuthConfig}

-- The errors of the package.
pub data AuthError : Type 0 where
  unauthorized unsupported : AuthError

-- `sign` is the hexadecimal HMAC-SHA256 of a payload under a secret.
pub record Library : Type 0 where
  pub trim_space : String → String
  pub to_lower : String → String
  pub trim_prefix : String → String → String
  pub sign : String → String → String

-- `if header == "" { header = d }`
abbrev pub header_or : String → String → String
header_or d header = if str_eq header "" then d else header

passes_two :
    (a b : Bool)
    → (if a then some unauthorized else if not b then some unauthorized else none) ≡ none
    → (a ≡ false) × (b ≡ true)
passes_two true b h = absurd (cc)
passes_two false false h = absurd (cc)
passes_two false true h = (refl, refl)

passes_three :
    (a b c : Bool)
    → (if a
        then some unauthorized
        else if b
        then some unauthorized
        else if not c
        then some unauthorized
        else none)
      ≡ none
    → (a ≡ false) × (c ≡ true)
passes_three true b c h = absurd (cc)
passes_three false true c h = absurd (cc)
passes_three false false c h = passes_two false c h

module _ (lib : Library) (headers : String → String) where
  unfoldable pub delivery_id : String
  delivery_id =
      let id = lib.trim_space (headers "X-GitHub-Delivery") in
      if str_eq id "" then lib.trim_space (headers "X-Delivery-Id") else id

  -- One entry of auth.signed_headers; an unknown one adds nothing.
  unfoldable pub signed_part : String → String → List String → List String
  unfolding delivery_id
  signed_part body h parts =
      let name = lib.to_lower (lib.trim_space h) in
      if str_eq name "timestamp"
      then lib.trim_space (headers "X-Webhook-Timestamp") ∷ parts
      else if str_eq name "delivery_id"
      then delivery_id ∷ parts
      else if str_eq name "body"
      then body ∷ parts
      else parts

  unfoldable pub signed_parts : String → List String → List String
  unfolding signed_part
  signed_parts body [] = []
  signed_parts body (h ∷ signed) = let rest = signed_parts body signed in signed_part body h rest

  -- strings.Join(parts, "\n")
  unfoldable pub join_lines : List String → String
  join_lines [] = ""
  join_lines (part ∷ []) = part
  join_lines (part ∷ p ∷ parts) = let rest = join_lines (p ∷ parts) in part ++ ("\n" ++ rest)

  unfoldable pub build_payload : List String → String → String
  unfolding signed_parts join_lines
  build_payload [] body = body
  build_payload (h ∷ signed) body = join_lines (signed_parts body (h ∷ signed))

  unfoldable pub verify_hmac : AuthConfig → String → Option AuthError
  unfolding build_payload
  verify_hmac ac body =
      let got = lib.trim_prefix "sha256=" (headers (header_or "X-Hub-Signature-256" ac.header)) in
      if str_eq ac.secret ""
      then some unauthorized
      else if str_eq got ""
      then some unauthorized
      else if not (str_eq got (lib.sign ac.secret (build_payload ac.signed_headers body)))
      then some unauthorized
      else none

  unfoldable pub verify_token : AuthConfig → Option AuthError
  verify_token ac =
      if str_eq ac.secret ""
      then some unauthorized
      else if not (str_eq (headers (header_or "X-Webhook-Token" ac.header)) ac.secret)
      then some unauthorized
      else none

  unfoldable pub verify : AuthConfig → String → Option AuthError
  unfolding verify_hmac verify_token
  verify ac body =
      if str_eq ac.type "none"
      then none
      else if str_eq ac.type "hmac"
      then verify_hmac ac body
      else if str_eq ac.type "token"
      then verify_token ac
      else some unsupported

  verify_hmac-secret :
      (ac : AuthConfig) (body : String)
      → verify_hmac ac body ≡ none
      → (str_eq ac.secret "" ≡ false)
        × (lib.trim_prefix "sha256=" (headers (header_or "X-Hub-Signature-256" ac.header))
            ≡ lib.sign ac.secret (build_payload ac.signed_headers body))
  unfolding verify_hmac
  verify_hmac-secret ac body h = let c = passes_three _ _ _ h in (c.0, (eq_iff _ _).0 c.1)

  verify_token-secret :
      (ac : AuthConfig)
      → verify_token ac ≡ none
      → (str_eq ac.secret "" ≡ false)
        × (headers (header_or "X-Webhook-Token" ac.header) ≡ ac.secret)
  unfolding verify_token
  verify_token-secret ac h = let c = passes_two _ _ h in (c.0, (eq_iff _ _).0 c.1)

  by_hmac :
      (ac : AuthConfig) (body : String)
      → str_eq ac.type "none" ≡ false
      → str_eq ac.type "hmac" ≡ true
      → verify ac body ≡ none
      → verify_hmac ac body ≡ none
  unfolding verify
  by_hmac ac body p q h = let e : verify ac body ≡ verify_hmac ac body = rw (p, q) refl in sym e ∙ h

  by_token :
      (ac : AuthConfig) (body : String)
      → str_eq ac.type "none" ≡ false
      → str_eq ac.type "hmac" ≡ false
      → str_eq ac.type "token" ≡ true
      → verify ac body ≡ none
      → verify_token ac ≡ none
  unfolding verify
  by_token ac body p q r h =
      let e : verify ac body ≡ verify_token ac = rw (p, q, r) refl in sym e ∙ h

  -- A request passes only if the source asks for no authentication, or has a secret that is not empty
  -- and the request shows it: for hmac its signature is the one of the configured payload under the
  -- secret, for token its token is the secret.
  pub verify-authentic :
      (ac : AuthConfig) (body : String)
      → verify ac body ≡ none
      → (ac.type ≡ "none")
        ⊎ ((str_eq ac.secret "" ≡ false)
            × (((ac.type ≡ "hmac")
                  × (lib.trim_prefix "sha256=" (headers (header_or "X-Hub-Signature-256" ac.header))
                      ≡ lib.sign ac.secret (build_payload ac.signed_headers body)))
                ⊎ ((ac.type ≡ "token")
                    × (headers (header_or "X-Webhook-Token" ac.header) ≡ ac.secret))))
  unfolding verify
  verify-authentic ac body h = elim (Bool-cases (str_eq ac.type "none")) [
    | inl p ↦ inl ((eq_iff _ _).0 p)
    | inr p ↦ elim (Bool-cases (str_eq ac.type "hmac")) [
      | inl q ↦
          let c = verify_hmac-secret ac body (by_hmac ac body p q h) in
          inr (c.0, inl ((eq_iff _ _).0 q, c.1))
      | inr q ↦ elim (Bool-cases (str_eq ac.type "token")) [
        | inl r ↦
            let c = verify_token-secret ac (by_token ac body p q r h) in
            inr (c.0, inr ((eq_iff _ _).0 r, c.1))
        | inr r ↦ absurd (ground (arith, p, q, r, h))
      ]
    ]
  ]
