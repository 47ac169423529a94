-- ===== src/Config/Snapshot.antt =====
-- internal/config/snapshot.go: SnapshotSource, ParseSourceSnapshot, ConfigHash, ActionSecretReplacements
-- and ScrubSnapshotSecrets. encoding/json is the two functions of `Json`.
pub mod RoundTrip
use Prim.Native.Nat.{Ordering}
use Prim.Native.String.{◌++◌ as ◌then◌, len, compare}
use general_webhook.Base.{
  ℕ, String, Bool, true, false, not, Option, none, some, List, [], ◌∷◌, ◌++◌, ltb, str_eq, map,
  if◌then◌else◌, exists, length, ◌==◌,
}
use general_webhook.Config.{Rule, ActionConfig, LogPolicyConfig, AuthConfig, Source, Config}
use general_webhook.Config.Library.{Library}
use general_webhook.Config.Sources.{SourceError, check_redaction, filled_policy, action_strings}

-- What is kept of a source: all but its authentication.
pub record SourceSnapshot : Type 0 where
  pub name : String
  pub extract : List (String × String)
  pub rules : List Rule
  pub actions : List ActionConfig
  pub log_policy : Option LogPolicyConfig
  pub redaction : Option (List String)

-- json.Marshal and json.Unmarshal of a snapshot, json.Marshal of a list of them, and the hexadecimal
-- SHA-256 of a text.
pub record Json : Type 0 where
  pub marshal : SourceSnapshot → Option String
  pub unmarshal : String → Option SourceSnapshot
  pub marshal_plans : List SourceSnapshot → Option String
  pub sha256_hex : String → String

abbrev pub snapshot_of : Source → SourceSnapshot
snapshot_of src = record {
  name = src.name;
  extract = src.extract;
  rules = src.rules;
  actions = src.actions;
  log_policy = src.log_policy;
  redaction = src.redaction;
}

abbrev pub no_auth : AuthConfig
no_auth = record { type = ""; header = ""; secret = ""; signed_headers = [] }

-- The source of a snapshot, its policy filled in.
abbrev pub restored : SourceSnapshot → Source
restored snap = record {
  name = snap.name;
  auth = no_auth;
  extract = snap.extract;
  rules = snap.rules;
  actions = snap.actions;
  log_policy = elim snap.log_policy [ none ↦ none | some lp ↦ some (filled_policy lp) ];
  redaction = snap.redaction;
}

module _ (json : Json) where
  -- `none` is an error, also for a source that is nil.
  unfoldable pub snapshot_source : Option Source → Option String
  snapshot_source none = none
  snapshot_source (some src) = json.marshal (snapshot_of src)

  -- The hash is empty without a configuration, and where it cannot be written.
  unfoldable pub config_hash : Option Config → String
  config_hash none = ""
  config_hash (some c) = elim (json.marshal_plans (map snapshot_of c.sources)) [
    | none ↦ ""
    | some text ↦ json.sha256_hex text
  ]

  module _ (lib : Library) where
    abbrev pub compiled : SourceSnapshot → Option SourceError → Option Source
    compiled snap none = some (restored snap)
    compiled snap (some e) = none

    unfoldable pub parse_source_snapshot : String → Option Source
    unfolding check_redaction filled_policy
    parse_source_snapshot raw = if str_eq raw "" then none else elim (json.unmarshal raw) [
      | none ↦ none
      | some snap ↦ compiled snap (check_redaction lib snap.redaction)
    ]

-- sort.Strings: insertion into a sorted list.
unfoldable pub insert_name : String → List String → List String
insert_name name [] = name ∷ []
insert_name name (n ∷ names) =
    let rest = insert_name name names in
    elim (compare name n) [ Ordering.gt ↦ n ∷ rest | _ ↦ name ∷ n ∷ names ]

unfoldable pub sort_names : List String → List String
unfolding insert_name
sort_names [] = []
sort_names (n ∷ names) = insert_name n (sort_names names)

module _ (lib : Library) where
  -- The names not seen before, after those that are.
  unfoldable pub collect_names : List String → List String → List String
  collect_names names [] = names
  collect_names names (match ∷ matches) =
      collect_names (if exists (λ n. str_eq n match) names then names else names ++ match ∷ [])
        matches

  unfoldable pub collect_strings : List String → List String → List String
  unfolding collect_names
  collect_strings names [] = names
  collect_strings names (value ∷ values) =
      collect_strings (collect_names names (lib.secret_refs value)) values

  unfoldable pub collect_actions : List String → List ActionConfig → List String
  unfolding collect_strings action_strings
  collect_actions names [] = names
  collect_actions names (ac ∷ actions) =
      collect_actions (collect_strings names (action_strings lib ac)) actions

  unfoldable pub collect_sources : List String → List Source → List String
  unfolding collect_actions
  collect_sources names [] = names
  collect_sources names (src ∷ sources) =
      collect_sources (collect_actions names src.actions) sources

  -- One name: nothing if it is unset or empty, or if its value is there already.
  abbrev add_replacement : String → Option String → List (String × String) → List (String × String)
  add_replacement name none out = out
  add_replacement name (some value) out =
      if str_eq value ""
      then out
      else if exists (λ entry. str_eq entry.0 value) out
      then out
      else out ++ (value, "${secret:" then (name then "}")) ∷ []

  unfoldable pub replacements_of : List (String × String) → List String → List (String × String)
  replacements_of out [] = out
  replacements_of out (name ∷ names) =
      replacements_of (add_replacement name (lib.lookup_env name) out) names

  unfoldable pub action_secret_replacements : Option Config → List (String × String)
  unfolding collect_sources replacements_of sort_names
  action_secret_replacements none = []
  action_secret_replacements (some c) =
      replacements_of [] (sort_names (collect_sources [] c.sources))

-- The longest value first; sort.Slice leaves open the order of values of one length.
unfoldable pub insert_longest : String × String → List (String × String) → List (String × String)
insert_longest entry [] = entry ∷ []
insert_longest entry (e ∷ entries) =
    let rest = insert_longest entry entries in
    if ltb (len entry.0) (len e.0) then e ∷ rest else entry ∷ e ∷ entries

unfoldable pub longest_first : List (String × String) → List (String × String)
unfolding insert_longest
longest_first [] = []
longest_first (entry ∷ entries) = insert_longest entry (longest_first entries)

-- `replace_all s old new` is strings.ReplaceAll.
module _ (replace_all : String → String → String → String) where
  unfoldable pub replace_values : List (String × String) → String → String
  replace_values [] value = value
  replace_values (entry ∷ entries) value =
      replace_values entries (replace_all value entry.0 entry.1)

  unfoldable pub scrub_action : List (String × String) → ActionConfig → ActionConfig
  unfolding replace_values
  scrub_action values ac = record ac {
    url = replace_values values ac.url;
    command = replace_values values ac.command;
    body = replace_values values ac.body;
    args = map (replace_values values) ac.args;
    headers =
        map (λ entry. (replace_values values entry.0, replace_values values entry.1)) ac.headers;
  }

  unfoldable pub scrub_snapshot_secrets :
      Json → Library → String → List (String × String) → Option String
  unfolding scrub_action longest_first parse_source_snapshot snapshot_source
  scrub_snapshot_secrets json lib raw replacements =
      if length replacements == 0
      then some raw
      else if str_eq raw ""
      then some raw
      else elim (parse_source_snapshot json lib raw) [
        | none ↦ none
        | some src ↦
            let values = longest_first replacements in
            snapshot_source json
              (some (record src { actions = map (scrub_action values) src.actions }))
      ]
