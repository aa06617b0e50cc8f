-- ===== src/Config.antt =====
-- config.go: the settings, and their normalisation after they are read. Decoding the file or the
-- environment is left to toml and envconfig.
pub mod Normal
use listserver.Base.{
  Bool, List, Option, Text, [], any, codes, false, if◌then◌else◌, int_eq, ltb_ℤ, map, nat_eq, none,
  pos, some, text_eq, true, ℤ, ◌==◌, ◌∷◌,
}
use listserver.Strings.{contains, to_lower, to_upper}

pub record Config : Type 0 where
  pub listen : Text
  pub include_servers : List Text
  pub allow_origins : List Text
  pub database : Text
  pub name : Text
  pub description : Text
  pub favicon : Text
  pub welcome : Text
  pub nsfm_words : List Text
  pub allow_well_known_ports : Bool
  pub protocol_whitelist : List Text
  pub max_sessions_per_host : ℤ
  pub max_sessions_per_named_host : ℤ
  pub trusted_hosts : List Text
  pub banned_hosts : List Text
  pub proxy_headers : Bool
  pub warn_ipv6 : Bool
  pub public : Bool
  pub check_server : Bool
  pub session_timeout : ℤ
  pub shutdown_timeout : ℤ
  pub log_requests : Bool
  pub enable_admin_api : Bool
  pub include_cache_ttl : ℤ
  pub include_status_cache_ttl : ℤ
  pub include_timeout : ℤ

-- `ContainsNsfmWords`
unfoldable pub contains_nsfm_words : Config → Text → Bool
unfolding to_upper contains any
contains_nsfm_words c text = any (λ s. contains (to_upper text) s) c.nsfm_words

-- `IsTrustedHost`, which the program never calls.
unfoldable pub is_trusted_host : Config → Text → Bool
unfolding any
is_trusted_host c host = any (λ v. host == v) c.trusted_hosts

-- `defaultConfig`, with what os.Hostname gives.
unfoldable pub default_config : Option Text → Config
default_config hostname = record {
  listen = codes "localhost:8080";
  include_servers = [];
  allow_origins = codes "*" ∷ [];
  database = codes "memory";
  name = elim hostname [ none ↦ codes "Unconfigured server" | some h ↦ h ];
  description = codes "A Drawpile listing server";
  favicon = [];
  welcome = [];
  nsfm_words = codes "18+" ∷ codes "NSFW" ∷ codes "NSFM" ∷ [];
  allow_well_known_ports = false;
  protocol_whitelist = [];
  max_sessions_per_host = pos 3;
  max_sessions_per_named_host = pos 10;
  trusted_hosts = [];
  banned_hosts = [];
  proxy_headers = false;
  warn_ipv6 = true;
  public = true;
  check_server = true;
  session_timeout = pos 10;
  shutdown_timeout = pos 1;
  log_requests = false;
  enable_admin_api = false;
  include_cache_ttl = pos 0;
  include_status_cache_ttl = pos 0;
  include_timeout = pos 0;
}

-- `if x < y { x = y }`
abbrev pub at_least : ℤ → ℤ → ℤ
at_least x y = if ltb_ℤ x y then y else x

unfoldable pub do_normalizations : Config → Config
unfolding to_upper to_lower
do_normalizations c = record c {
  nsfm_words = map to_upper c.nsfm_words;
  max_sessions_per_named_host = at_least c.max_sessions_per_named_host c.max_sessions_per_host;
  banned_hosts = map to_lower c.banned_hosts;
  trusted_hosts = map to_lower c.trusted_hosts;
  include_status_cache_ttl = at_least c.include_status_cache_ttl c.include_cache_ttl;
}
