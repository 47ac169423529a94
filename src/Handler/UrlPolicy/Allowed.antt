-- ===== src/Handler/UrlPolicy/Allowed.antt =====
-- What an allowed destination is.
use general_webhook.Base.{
  String, Bool, true, false, ◌&&◌, Option, none, some, List, [], ◌∷◌, ◌≡◌, refl, arith, ◌⊎◌, inl,
  inr, Bool-cases, str_eq, eq_iff, exists, ltb, length, ◌<◌, All,
}
use general_webhook.Config.Library.{Url}
use general_webhook.Config.Checks.{refuse-none, first_of-none}
use general_webhook.Handler.UrlPolicy.{
  Library, UrlError, passes, is_blocked_hostname, validate_destination_ip, match_allowlist_entry,
  host_of, check_ip, check_allowlist, check_destination, validate_url_destination_with_policy,
  canonical_url_path, check_resolved, may_dial,
}

module _ {Ip Cidr : Type 0} (lib : Library Ip Cidr) where
  -- Never a loopback, link-local, unspecified or multicast address, and a private one only by leave.
  abbrev pub IpAllowed : Bool → Ip → Type 0
  IpAllowed allow_private ip =
      (lib.is_never_allowed ip ≡ false) × ((lib.is_private ip ≡ false) ⊎ (allow_private ≡ true))

  -- The host is a name, or an address that is allowed.
  abbrev pub HostAllowed : Bool → String → Type 0
  HostAllowed allow_private host =
      (lib.parse_ip host ≡ none)
      ⊎ ((ip : Ip) × (lib.parse_ip host ≡ some ip) × IpAllowed allow_private ip)

  -- Without an allowlist only https; with one, an entry that matches the URL and its path.
  abbrev pub Listed : Url → List String → Type 0
  Listed u allowlist =
      ((allowlist ≡ []) × (lib.to_lower u.scheme ≡ "https"))
      ⊎ ((path : String) × (canonical_url_path lib u ≡ inr path)
          × (exists (λ e. match_allowlist_entry lib u path (lib.trim_space e)) allowlist ≡ true))

  pub record Allowed (raw : String) (allowlist : List String) (allow_private : Bool) : Type 0 where
    pub url : Url
    pub is_parsed : lib.parse_url raw ≡ some url
    pub has_no_user : url.has_user ≡ false
    pub scheme : (lib.to_lower url.scheme ≡ "http") ⊎ (lib.to_lower url.scheme ≡ "https")
    pub not_blocked : is_blocked_hostname lib (host_of lib url) ≡ false
    pub address : HostAllowed (allow_private && ltb 0 (length allowlist)) (host_of lib url)
    pub is_listed : Listed url allowlist

  ip_allowed :
      (allow_private : Bool) (ip : Ip)
      → validate_destination_ip lib allow_private ip ≡ none
      → IpAllowed allow_private ip
  unfolding validate_destination_ip
  ip_allowed allow_private ip h =
      let passed = first_of-none _ h in
      let private = refuse-none _ _ passed.1.0 in
      (
        refuse-none _ _ passed.0,
        elim (Bool-cases allow_private) [
          | inl e ↦ inr e
          | inr e ↦ inl (ground (arith, e, private))
        ],
      )

  host_allowed :
      (allow_private : Bool) (host : String) (o : Option Ip)
      → lib.parse_ip host ≡ o
      → check_ip lib allow_private o ≡ none
      → HostAllowed allow_private host
  unfolding check_ip
  host_allowed allow_private host none e h = inl e
  host_allowed allow_private host (some ip) e h = inr (ip, e, ip_allowed allow_private ip h)

  listed :
      (u : Url) (allowlist : List String) (path : UrlError ⊎ String)
      → canonical_url_path lib u ≡ path
      → check_allowlist lib u allowlist path ≡ none
      → Listed u allowlist
  unfolding check_allowlist
  listed u allowlist (inl x) e h = absurd (cc h)
  listed u [] (inr path) e h = inl (refl, (eq_iff _ _).0 (ground (arith, refuse-none _ _ h)))
  listed u (entry ∷ allowlist) (inr path) e h =
      let found = refuse-none _ _ h in inr (path, e, ground (arith, found))

  check_destination-Allowed :
      (raw : String) (allowlist : List String) (allow_private : Bool) (o : Option Url)
      → lib.parse_url raw ≡ o
      → check_destination lib allowlist allow_private o ≡ none
      → Allowed raw allowlist allow_private
  unfolding check_destination
  check_destination-Allowed raw allowlist allow_private none e h = absurd (cc h)
  check_destination-Allowed raw allowlist allow_private (some u) e h =
      let passed = first_of-none _ h in
      let known = refuse-none _ _ passed.1.1.0 in
      record {
        url = u;
        is_parsed = e;
        has_no_user = refuse-none _ _ passed.1.0;
        scheme = elim (Bool-cases (str_eq (lib.to_lower u.scheme) "http")) [
          | inl http ↦ inl ((eq_iff _ _).0 http)
          | inr other ↦ inr ((eq_iff _ _).0 (ground (arith, other, known)))
        ];
        not_blocked = refuse-none _ _ passed.1.1.1.1.1.0;
        address = host_allowed _ (host_of lib u) _ refl passed.1.1.1.1.1.1.0;
        is_listed = listed u allowlist _ refl passed.1.1.1.1.1.1.1.0;
      }

  -- A destination that passes the policy has a URL without userinfo, of http or https, whose host is
  -- not blocked; if the host is an address, it is never a loopback, link-local, unspecified or
  -- multicast one, and a private one only if that is allowed and there is an allowlist. Without an
  -- allowlist the scheme is https, and with one an entry matches.
  pub validate_url_destination_with_policy-Allowed :
      (raw : String) (allowlist : List String) (allow_private : Bool)
      → validate_url_destination_with_policy lib raw allowlist allow_private ≡ none
      → Allowed raw allowlist allow_private
  unfolding validate_url_destination_with_policy
  validate_url_destination_with_policy-Allowed raw allowlist allow_private h =
      check_destination-Allowed raw allowlist allow_private _ refl h

  passes-none : (o : Option UrlError) → passes o ≡ true → o ≡ none
  passes-none none h = refl
  passes-none (some x) h = absurd (cc h)

  check_resolved-IpAllowed :
      (allow_private : Bool) (ips : List Ip)
      → check_resolved lib allow_private ips ≡ none
      → All (IpAllowed allow_private) ips
  unfolding check_resolved
  check_resolved-IpAllowed allow_private [] h = tt
  check_resolved-IpAllowed allow_private (ip ∷ ips) h =
      let passed = first_of-none _ h in
      (ip_allowed allow_private ip passed.0, check_resolved-IpAllowed allow_private ips passed.1.0)

  -- A host is only dialed if it is not blocked and resolves to at least one address, and every address
  -- it resolves to is allowed.
  pub may_dial-IpAllowed :
      (allow_private : Bool) (host : String) (ips : List Ip)
      → may_dial lib allow_private host ips ≡ true
      → (is_blocked_hostname lib host ≡ false)
        × (0 < length ips)
        × All (IpAllowed allow_private) ips
  unfolding may_dial
  may_dial-IpAllowed allow_private host ips h = (
    ground (arith, h),
    ground (arith, h),
    check_resolved-IpAllowed allow_private ips (passes-none _ (ground (arith, h))),
  )
