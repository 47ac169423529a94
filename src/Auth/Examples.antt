-- ===== src/Auth/Examples.antt =====
-- Requests with a signature, the signature being the secret before the payload.
use general_webhook.Base.{String, none, [], ◌∷◌, ◌≡◌, refl, false, str_eq, if◌then◌else◌, ◌⊎◌}
use Prim.Native.String.{◌++◌}
use general_webhook.Config.{AuthConfig}
use general_webhook.Auth.{Library, header_or, build_payload, verify, verify-authentic}

abbrev library : Library
library = record {
  trim_space = λ s. s;
  to_lower = λ s. s;
  trim_prefix = λ prefix s. s;
  sign = λ secret payload. secret ++ (":" ++ payload);
}

abbrev hmac : AuthConfig
hmac = record {
  type = "hmac";
  header = "";
  secret = "k";
  signed_headers = "timestamp" ∷ "body" ∷ [];
}

abbrev headers : String → String
headers name =
    if str_eq name "X-Webhook-Timestamp"
    then "17"
    else if str_eq name "X-Hub-Signature-256"
    then "k:17\n{}"
    else ""

passes : verify library headers hmac "{}" ≡ none
unfolding verify
passes = refl

forged : verify library headers hmac "{1}" ≡ none → ⊥
unfolding verify
forged h = cc

verify-authentic_example :
    (hmac.type ≡ "none")
    ⊎ ((str_eq hmac.secret "" ≡ false)
        × (((hmac.type ≡ "hmac")
              × (library.trim_prefix "sha256="
                    (headers (header_or "X-Hub-Signature-256" hmac.header))
                  ≡ library.sign hmac.secret
                      (build_payload library headers hmac.signed_headers "{}")))
            ⊎ ((hmac.type ≡ "token")
                × (headers (header_or "X-Webhook-Token" hmac.header) ≡ hmac.secret))))
verify-authentic_example = verify-authentic library headers hmac "{}" passes
