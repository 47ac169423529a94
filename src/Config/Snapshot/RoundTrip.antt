-- ===== src/Config/Snapshot/RoundTrip.antt =====
-- A snapshot that is read again gives the source back.
use general_webhook.Base.{
  ℕ, suc, List, [], ◌∷◌, All, String, false, Option, none, some, ◌≡◌, refl, inl, inr, str_eq,
}
use general_webhook.Config.{LogPolicyConfig, Source}
use general_webhook.Config.Library.{Library}
use general_webhook.Config.Checks.{first_of}
use general_webhook.Config.Sources.{filled_policy, compile_redaction, check_redaction}
use general_webhook.Config.Valid.Sources.{PolicyValid, PatternValid, RedactionValid, SourceValid}
use general_webhook.Config.Snapshot.{
  Json, snapshot_of, no_auth, snapshot_source, parse_source_snapshot,
}

-- A policy that is filled in already stays.
filled_policy-same :
    (lp : LogPolicyConfig)
    → str_eq lp.field "" ≡ false
    → lp.on_reject ≡ "drop_and_count"
    → filled_policy lp ≡ lp
unfolding filled_policy
filled_policy-same lp h k = rw (h, k) refl

filled_same :
    (lib : Library) (o : Option LogPolicyConfig)
    → PolicyValid lib o
    → (elim o as (λ _. Option LogPolicyConfig) [ none ↦ none | some lp ↦ some (filled_policy lp) ])
      ≡ o
filled_same lib o (inl e) = rw e refl
filled_same lib o (inr (lp, e, _, field, _, _, on_reject)) =
    rw (e, filled_policy-same lp field on_reject) refl

module _ (lib : Library) where
  patterns_pass :
      (i : ℕ) (patterns : List String)
      → All (PatternValid lib) patterns
      → compile_redaction lib i patterns ≡ none
  unfolding compile_redaction first_of
  patterns_pass i [] h = refl
  patterns_pass i (p ∷ patterns) h = rw (h.0.0, h.0.1, patterns_pass (suc i) patterns h.1) refl

  redaction_passes :
      (o : Option (List String)) → RedactionValid lib o → check_redaction lib o ≡ none
  unfolding check_redaction
  redaction_passes none h = refl
  redaction_passes (some patterns) h = patterns_pass 0 patterns h

module _ (json : Json) (lib : Library) where
  -- The snapshot of a valid source, if encoding/json writes it as a text that is not empty and reads
  -- that text back, is parsed as the source without its authentication.
  pub parse_source_snapshot-snapshot_source :
      (src : Source) (raw : String)
      → SourceValid lib src
      → snapshot_source json (some src) ≡ some raw
      → str_eq raw "" ≡ false
      → (json.marshal (snapshot_of src) ≡ some raw → json.unmarshal raw ≡ some (snapshot_of src))
      → parse_source_snapshot json lib raw ≡ some (record src { auth = no_auth })
  unfolding parse_source_snapshot snapshot_source
  parse_source_snapshot-snapshot_source src raw valid written some_text reads =
      rw
        (
          some_text,
          reads written,
          redaction_passes lib src.redaction valid.redaction,
          filled_same lib src.log_policy valid.policy,
        )
        refl
