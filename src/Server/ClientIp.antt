-- ===== src/Server/ClientIp.antt =====
-- internal/server/protect.go: clientIP. The packages net and strings are parameters.
use general_webhook.Base.{
  String, Bool, true, false, Option, none, some, List, [], ◌∷◌, str_eq, if◌then◌else◌,
}

-- `host_of` is the host of net.SplitHostPort, `parse_ip` is net.ParseIP, and `trusted` is
-- trustedNets.contains of an address that is not nil.
pub record Network (Ip : Type 0) : Type 0 where
  pub host_of : String → Option String
  pub parse_ip : String → Option Ip
  pub trusted : Ip → Bool
  pub split_commas : String → List String
  pub trim_space : String → String

module _ {Ip : Type 0} (net : Network Ip) where
  -- An address that is not one, or that is trusted, is passed over.
  abbrev is_client : String → Bool
  is_client candidate = elim (net.parse_ip candidate) [
    | none ↦ false
    | some ip ↦ if net.trusted ip then false else true
  ]

  -- The rightmost hop that is not trusted.
  unfoldable pub rightmost_client : List String → Option String
  rightmost_client [] = none
  rightmost_client (part ∷ parts) =
      let candidate = net.trim_space part in
      elim (rightmost_client parts) [
        | some found ↦ some found
        | none ↦ if is_client candidate then some candidate else none
      ]

  unfoldable pub real_ip : String → String → String
  real_ip remote header =
      let candidate = net.trim_space header in
      if str_eq candidate ""
      then remote
      else elim (net.parse_ip candidate) [ none ↦ remote | some ip ↦ candidate ]

  unfoldable pub forwarded : String → String → String → String
  unfolding rightmost_client real_ip
  forwarded remote forwarded_for header =
      if str_eq forwarded_for ""
      then real_ip remote header
      else elim (rightmost_client (net.split_commas forwarded_for)) [
        | some client ↦ client
        | none ↦ real_ip remote header
      ]

  abbrev remote_of : String → String
  remote_of remote_addr = elim (net.host_of remote_addr) [ none ↦ remote_addr | some host ↦ host ]

  -- The headers are X-Forwarded-For and X-Real-IP.
  unfoldable pub client_ip : String → String → String → String
  unfolding forwarded
  client_ip remote_addr forwarded_for header =
      let remote = remote_of remote_addr in
      elim (net.parse_ip remote) [
        | none ↦ remote
        | some ip ↦ if net.trusted ip then forwarded remote forwarded_for header else remote
      ]
