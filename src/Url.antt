-- ===== src/Url.antt =====
-- src/lb/url.hpp and src/lb/url.cpp: the parts of a URL, as the regular expression splits it.
pub mod Parts
mod Tests
use lb.Common.{
  String, Bool, true, false, Option, none, some, Outcome, ok, throws, ◌>>=◌, invalid_url,
  unknown_protocol, str_eq, if◌then◌else◌,
}
use lb.Platform.{Ctre, UrlMatch}

pub record Url : Type 0 where
  pub whole_url : String
  pub protocol : String
  pub hostname : String
  pub port : String
  pub path : String
  pub query : String
  pub fragment : String

-- DefaultProtocolPort
unfoldable pub default_protocol_port : String → Outcome String
default_protocol_port protocol =
    if str_eq protocol "http"
    then ok "80"
    else if str_eq protocol "https"
    then ok "443"
    else if str_eq protocol "ftp"
    then ok "21"
    else if str_eq protocol "ssh"
    then ok "22"
    else throws (unknown_protocol protocol)

-- The text of a group, or what stands for an empty one.
abbrev pub or_default : String → Outcome String → Outcome String
or_default text fallback = if str_eq text "" then fallback else ok text

-- What the constructor does with the groups.
unfoldable pub of_match : String → Option UrlMatch → Outcome Url
unfolding default_protocol_port
of_match string none = throws (invalid_url string)
of_match string (some m) = do
  protocol ← or_default m.protocol (ok "http")
  port ← or_default m.port (default_protocol_port protocol)
  ok (record {
    whole_url = string;
    protocol = protocol;
    hostname = m.hostname;
    port = port;
    path = m.path;
    query = m.query;
    fragment = m.fragment;
  })

module _ ⦃ctre : Ctre⦄ where
  -- Url::IsUrl
  pub is_url : String → Bool
  is_url src = elim (ctre.match_url src) [ none ↦ false | some _ ↦ true ]

  -- Url::Url
  unfoldable pub make_url : String → Outcome Url
  unfolding of_match
  make_url string = of_match string (ctre.match_url string)

-- Url::ToString
abbrev pub to_string : Url → String
to_string u = u.whole_url

-- operator==
abbrev pub url_eq : Url → Url → Bool
url_eq lhs rhs = str_eq (to_string lhs) (to_string rhs)
