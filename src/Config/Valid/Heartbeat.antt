-- ===== src/Config/Valid/Heartbeat.antt =====
-- What `validate` promises of the heartbeat.
use Prim.Native.String.{len}
use general_webhook.Base.{
  ℕ, ◌≤◌, String, Bool, true, false, not, Option, none, some, List, [], ◌∷◌, ◌≡◌, refl, arith,
  str_eq, length, All, Distinct, exists, suc, pos_part,
}
use general_webhook.Config.{HeartbeatTarget, HeartbeatConfig}
use general_webhook.Config.Library.{Url, Library}
use general_webhook.Config.Checks.{Between, Between-of_refuse, refuse-none, first_of-none, above}
use general_webhook.Config.Heartbeat.{
  every_char, is_control, valid_source_name, scheme_allowed, known_mode, check_url, check_target,
  check_targets, validate_heartbeat,
}
use general_webhook.Config.Valid.Sources.{apart, others}

-- The URL of a target, as net/url reads it.
pub record UrlValid (lib : Library) (t : HeartbeatTarget) (o : Option Url) : Type 0 where
  pub url : Url
  pub is_parsed : o ≡ some url
  pub has_scheme : str_eq url.scheme "" ≡ false
  pub has_host : str_eq url.host "" ≡ false
  pub short : len t.url ≤ 4096
  pub no_fragment : str_eq url.fragment "" ≡ true
  pub no_opaque : str_eq url.opaque "" ≡ true
  pub scheme : scheme_allowed lib t url ≡ true
  pub no_user : url.has_user ≡ false
  pub mode : known_mode lib t.mode ≡ true

pub record TargetValid (lib : Library) (t : HeartbeatTarget) : Type 0 where
  pub name : valid_source_name t.name ≡ true
  pub url : UrlValid lib t (lib.parse_url t.url)

abbrev pub same_target : HeartbeatTarget → HeartbeatTarget → Bool
same_target new old = str_eq old.name new.name

pub record HeartbeatValid (lib : Library) (c : HeartbeatConfig) : Type 0 where
  pub interval : Between 10_000_000_000 3_600_000_000_000 c.interval
  pub timeout : Between 1_000_000_000 30_000_000_000 c.timeout
  pub within : above (pos_part c.interval) c.timeout ≡ false
  pub host : str_eq (lib.trim_space c.host) "" ≡ false
  pub host_short : len c.host ≤ 128
  pub host_plain : every_char (λ x. not (is_control x)) c.host ≡ true
  pub count : length c.targets ≤ 16
  pub targets : All (TargetValid lib) c.targets
  pub names : Distinct same_target c.targets

module _ (lib : Library) where
  check_url-Valid :
      (i : ℕ) (t : HeartbeatTarget) (o : Option Url) → check_url lib i t o ≡ none → UrlValid lib t o
  unfolding check_url
  check_url-Valid i t none h = absurd (cc h)
  check_url-Valid i t (some u) h =
      let passed = first_of-none _ h in
      let located = refuse-none _ _ passed.0 in
      let shape = refuse-none _ _ passed.1.0 in
      let scheme = refuse-none _ _ passed.1.1.0 in
      let mode = refuse-none _ _ passed.1.1.1.1.0 in
      record {
        url = u;
        is_parsed = refl;
        has_scheme = ground (arith, located);
        has_host = ground (arith, located);
        short = ground (arith, shape);
        no_fragment = ground (arith, shape);
        no_opaque = ground (arith, shape);
        scheme = ground (arith, scheme);
        no_user = refuse-none _ _ passed.1.1.1.0;
        mode = ground (arith, mode);
      }

  -- The targets are valid, none has a name in `seen`, and no two have one name.
  check_targets-Valid :
      (i : ℕ) (seen : List String) (ts : List HeartbeatTarget)
      → check_targets lib i seen ts ≡ none
      → All (TargetValid lib) ts
        × Distinct same_target ts
        × All (λ (t : HeartbeatTarget). exists (λ name. str_eq name t.name) seen ≡ false) ts
  unfolding check_targets check_target
  check_targets-Valid i seen [] h = (tt, tt, tt)
  check_targets-Valid i seen (t ∷ ts) h =
      let passed = first_of-none _ h in
      let one = passed.0 in
      let rest = passed.1.0 in
      let checks = first_of-none _ one in
      let name = refuse-none _ _ checks.1.0 in
      let fresh = refuse-none _ _ checks.1.1.0 in
      let url = checks.1.1.1.0 in
      let r = check_targets-Valid (suc i) (t.name ∷ seen) ts rest in
      (
        (record { name = ground (arith, name); url = check_url-Valid i t _ url }, r.0),
        (apart (λ (x : HeartbeatTarget). x.name) t.name seen _ r.2, r.1),
        (fresh, others (λ (x : HeartbeatTarget). x.name) t.name seen _ r.2),
      )

  pub validate_heartbeat-Valid :
      (c : HeartbeatConfig) → validate_heartbeat lib c ≡ none → HeartbeatValid lib c
  unfolding validate_heartbeat
  validate_heartbeat-Valid c h =
      let passed = first_of-none _ h in
      let interval = passed.0 in
      let timeout = passed.1.0 in
      let within = passed.1.1.0 in
      let host = refuse-none _ _ passed.1.1.1.0 in
      let plain = refuse-none _ _ passed.1.1.1.1.0 in
      let count = passed.1.1.1.1.1.0 in
      let targets = passed.1.1.1.1.1.1.0 in
      let valid = check_targets-Valid 0 [] c.targets targets in
      record {
        interval = Between-of_refuse _ _ _ _ interval;
        timeout = Between-of_refuse _ _ _ _ timeout;
        within = refuse-none _ _ within;
        host = ground (arith, host);
        host_short = ground (arith, host);
        host_plain = ground (arith, plain);
        count = ground (arith, refuse-none _ _ count);
        targets = valid.0;
        names = valid.1;
      }
