-- ===== src/Config.antt =====
-- pkg/config/config.go: the cache rules, and what `LoadConfig` computes from the decoded YAML. A
-- `map[string]struct{}` is the list of its keys, a map of rules an association list without
-- duplicate paths, as a Go map has none.
use advinced_cache.Prelude.{
  ℕ, Bool, Option, none, some, List, [], ◌∷◌, ◌++◌, map, any, bytes_eq, if◌then◌else◌,
}
use advinced_cache.KeyValue.{Bytes}

-- A duration is an `int64` of nanoseconds, a `float64` its 64 bits.
pub record RuleRefresh : Type 0 where
  pub enabled : Bool
  pub ttl : ℕ
  pub beta : ℕ
  pub coefficient : ℕ

pub record Gzip : Type 0 where
  pub enabled : Bool
  pub threshold : ℕ

pub record RuleKey : Type 0 where
  pub query : List Bytes
  pub query_bytes : List Bytes
  pub headers : List Bytes
  pub headers_map : List Bytes

pub record RuleValue : Type 0 where
  pub headers : List Bytes
  pub headers_map : List Bytes

pub record Rule : Type 0 where
  pub gzip : Gzip
  pub cache_key : RuleKey
  pub cache_value : RuleValue
  pub refresh : Option RuleRefresh
  pub path_bytes : Bytes

abbrev pub Rules : Type 0
Rules = List (Bytes × Rule)

-- `_, ok := m[k]`.
abbrev pub has_key : Bytes → List Bytes → Bool
has_key k = any (λ j. bytes_eq j k)

-- The loop that fills a `map[string]struct{}` from a list.
unfoldable pub headers_set : List Bytes → List Bytes → List Bytes
headers_set [] m = m
headers_set (h ∷ hs) m = headers_set hs (if has_key h m then m else m ++ h ∷ [])

-- One round of the loop over the rules in `LoadConfig`.
unfoldable pub prepare_rule : Bytes × Rule → Bytes × Rule
unfolding headers_set
prepare_rule (rule_path, rule) = (
  rule_path,
  record rule {
    path_bytes = rule_path;
    cache_key = record (rule.cache_key) {
      query_bytes = rule.cache_key.query_bytes ++ rule.cache_key.query;
      headers_map = headers_set rule.cache_key.headers [];
    };
    cache_value = record (rule.cache_value) {
      headers_map = headers_set rule.cache_value.headers [];
    };
  },
)

unfoldable pub prepare_rules : Rules → Rules
unfolding prepare_rule
prepare_rules = map prepare_rule

-- `MatchRule` of pkg/model/entry.go: the rule whose path is the request's path, byte for byte.
unfoldable pub match_rule : Rules → Bytes → Option Rule
match_rule [] path = none
match_rule ((rule_path, rule) ∷ rules) path =
    let rest = match_rule rules path in if bytes_eq rule_path path then some rule else rest
