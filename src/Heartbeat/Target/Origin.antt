-- ===== src/Heartbeat/Target/Origin.antt =====
-- Where heartbeats go, and what their log shows.
use general_webhook.Base.{
  ℕ, String, true, false, not, ◌||◌, Option, none, some, ◌≡◌, refl, sym, ◌∙◌, ap, arith, ◌⊎◌, inl,
  inr, Bool-cases, str_eq,
}
use general_webhook.Config.{HeartbeatTarget}
use general_webhook.Config.Library.{Url}
use general_webhook.Heartbeat.{Status, pass, fail}
use general_webhook.Heartbeat.Target.{
  Library, EndpointError, TransportError, PushError, not_answered, not_read, push_message, is_empty,
  is_web, lowered, kuma_url, failed_url, healthchecks_url, endpoint_url, checked_url, text_of,
  target_endpoint, log_entry,
}

-- Two URLs that lead to the same place: only the path, the query, the userinfo and the fragment differ.
pub record SameOrigin (u v : Url) : Type 0 where
  pub scheme : u.scheme ≡ v.scheme
  pub host : u.host ≡ v.host
  pub hostname : u.hostname ≡ v.hostname
  pub opaque : u.opaque ≡ v.opaque

-- The error without the text of the transport's error, which can hold the URL and its secrets.
abbrev pub textless : TransportError → TransportError
textless e = record e { text = "" }

abbrev pub bare : PushError → PushError
bare (not_answered e) = not_answered (textless e)
bare (not_read e) = not_read (textless e)
bare e = e

push_message-bare : (e : PushError) → push_message (bare e) ≡ push_message e
unfolding push_message
push_message-bare (not_answered e) = refl
push_message-bare (not_read e) = refl
push_message-bare _ = refl

module _ {Query : Type 0} (lib : Library Query) where
  -- The log of a failed push does not show the secrets of a target: it is the same for two targets of
  -- one name and mode whose URLs parse and have the same scheme, host and opaque part, and for two
  -- errors that differ at most in the text of the transport's error, whatever that text and the
  -- tokens, userinfo, paths and queries are.
  pub log_entry-blind :
      (t s : HeartbeatTarget) (u v : Url) (status : Status) (e f : PushError)
      (http_status duration_ms completed_at : ℕ)
      → t.name ≡ s.name
      → t.mode ≡ s.mode
      → lib.parse_url t.url ≡ some u
      → lib.parse_url s.url ≡ some v
      → SameOrigin u v
      → bare e ≡ bare f
      → log_entry lib t status e http_status duration_ms completed_at
        ≡ log_entry lib s status f http_status duration_ms completed_at
  unfolding log_entry
  log_entry-blind t s u v status e f http_status duration_ms completed_at name mode left right same
        like =
      let message : push_message e ≡ push_message f =
        sym (push_message-bare e) ∙ ap push_message like ∙ push_message-bare f in
      rw (left, right, name, mode, same.scheme, same.host, same.hostname, same.opaque, message) refl

  -- The endpoint keeps the host and the port of the configured URL.
  pub record Aimed (u v : Url) : Type 0 where
    pub host : v.host ≡ u.host
    pub hostname : v.hostname ≡ u.hostname
    pub port : v.port ≡ u.port
    pub scheme : v.scheme ≡ u.scheme
    pub has_user : v.has_user ≡ u.has_user

  abbrev Leads : Url → EndpointError ⊎ Url → Type 0
  Leads u (inl e) = Unit
  Leads u (inr v) = Aimed u v

  as_given : (u : Url) → Aimed u u
  as_given u = record { host = refl; hostname = refl; port = refl; scheme = refl; has_user = refl }

  kuma_url-Leads :
      (u : Url) (status : Status) (o : Option Query) → Leads u (kuma_url lib u status o)
  unfolding kuma_url
  kuma_url-Leads u status none = tt
  kuma_url-Leads u status (some q) = record {
    host = refl;
    hostname = refl;
    port = refl;
    scheme = refl;
    has_user = refl;
  }

  failed_url-Leads :
      (u : Url) (path : String) (o : Option String) → Leads u (failed_url lib u path o)
  unfolding failed_url
  failed_url-Leads u path none = tt
  failed_url-Leads u path (some decoded) = record {
    host = refl;
    hostname = refl;
    port = refl;
    scheme = refl;
    has_user = refl;
  }

  healthchecks_url-Leads : (u : Url) (status : Status) → Leads u (healthchecks_url lib u status)
  unfolding healthchecks_url
  healthchecks_url-Leads u pass = as_given u
  healthchecks_url-Leads u fail = failed_url-Leads u _ _

  endpoint_url-Leads :
      (mode : String) (status : Status) (u : Url) → Leads u (endpoint_url lib mode status u)
  unfolding endpoint_url
  endpoint_url-Leads mode status u = elim (Bool-cases (is_empty mode || str_eq mode "kuma")) [
    | inl e ↦ rw e (kuma_url-Leads u status _)
    | inr e ↦ elim (Bool-cases (str_eq mode "push" || str_eq mode "healthchecks")) [
      | inl f ↦ rw (e, f) (healthchecks_url-Leads u status)
      | inr f ↦ elim (Bool-cases (str_eq mode "json")) [
        | inl g ↦ rw (e, f, g) (as_given u)
        | inr g ↦ rw (e, f, g) tt
      ]
    ]
  ]

  -- What a text that targetEndpoint returns is made from.
  pub record Endpoint (t : HeartbeatTarget) (text : String) : Type 0 where
    pub given : Url
    pub url : Url
    pub is_parsed : lib.parse_url t.url ≡ some given
    pub is_text : text ≡ lib.to_text url
    pub has_no_user : given.has_user ≡ false
    pub web : is_web lib (lib.to_lower given.scheme) ≡ true
    pub aimed : Aimed (lowered lib given) url

  endpoint :
      (t : HeartbeatTarget) (text : String) (u : Url) (r : EndpointError ⊎ Url)
      → lib.parse_url t.url ≡ some u
      → u.has_user ≡ false
      → is_web lib (lib.to_lower u.scheme) ≡ true
      → Leads (lowered lib u) r
      → text_of lib r ≡ inr text
      → Endpoint t text
  endpoint t text u (inl e) parsed no_user web leads h = absurd (cc h)
  endpoint t text u (inr v) parsed no_user web leads h = record {
    given = u;
    url = v;
    is_parsed = parsed;
    is_text = cc h;
    has_no_user = no_user;
    web = web;
    aimed = leads;
  }

  checked_url-Endpoint :
      (t : HeartbeatTarget) (status : Status) (text : String) (o : Option Url)
      → lib.parse_url t.url ≡ o
      → text_of lib (checked_url lib t.mode status o) ≡ inr text
      → Endpoint t text
  unfolding checked_url
  checked_url-Endpoint t status text none parsed h = absurd (cc h)
  checked_url-Endpoint t status text (some u) parsed h =
      elim (Bool-cases (
        is_empty u.hostname
        || u.has_user
        || not (is_empty u.fragment)
        || not (is_empty u.opaque))) [
          | inl e ↦ absurd (cc (rw e at h))
          | inr e ↦ elim (Bool-cases (is_web lib (lib.to_lower u.scheme))) [
            | inl web ↦
                endpoint t text u _ parsed (ground (arith, e)) web
                  (endpoint_url-Leads t.mode status (lowered lib u)) (rw (e, web) at h)
            | inr f ↦ absurd (cc (rw (e, f) at h))
          ]
        ]

  -- The endpoint of a push has the host and the port of the configured URL, which is of http or https
  -- and has no userinfo.
  pub target_endpoint-Endpoint :
      (t : HeartbeatTarget) (status : Status) (text : String)
      → target_endpoint lib t status ≡ inr text
      → Endpoint t text
  unfolding target_endpoint
  target_endpoint-Endpoint t status text h = checked_url-Endpoint t status text _ refl h
