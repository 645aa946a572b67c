-- ===== src/Backend.antt =====
-- class Backend of src/lb/tcp/selectors.hpp: an endpoint or a URL.
pub mod Equality
pub mod RoundTrip
mod Tests
use lb.Common.{
  ℕ, String, Bool, true, false, ◌&&◌, Option, none, some, Outcome, ok, throws, ◌>>=◌, ◌==◌, ℤ,
  to_port, bad_address, bad_variant, text_append, decimal, if◌then◌else◌,
}
use lb.Platform.{Asio, Ctre}
use lb.Url
use lb.Url.{Url, make_url, url_eq}

module _ ⦃asio : Asio⦄ where
  -- boost::asio::ip::tcp::endpoint
  pub record Endpoint : Type 0 where
    pub address : asio.Address
    pub port : ℕ

  pub data Backend : Type 0 where
    of_endpoint : Endpoint → Backend
    of_url : Url → Backend

  -- Backend::IsUrl
  unfoldable pub is_url : Backend → Bool
  is_url (of_url _) = true
  is_url (of_endpoint _) = false

  -- Backend::IsIpEndpoint
  unfoldable pub is_ip_endpoint : Backend → Bool
  is_ip_endpoint (of_url _) = false
  is_ip_endpoint (of_endpoint _) = true

  -- Backend::AsEndpoint: `std::get` throws on the other alternative.
  unfoldable pub as_endpoint : Backend → Outcome Endpoint
  as_endpoint (of_endpoint e) = ok e
  as_endpoint (of_url _) = throws bad_variant

  -- Backend::AsUrl
  unfoldable pub as_url : Backend → Outcome Url
  as_url (of_url u) = ok u
  as_url (of_endpoint _) = throws bad_variant

  -- The equality of two endpoints.
  abbrev pub endpoint_eq : Endpoint → Endpoint → Bool
  endpoint_eq a b = asio.address_eq a.address b.address && a.port == b.port

  -- operator==: both URLs, or both endpoints, and equal as such.
  unfoldable pub backend_eq : Backend → Backend → Bool
  backend_eq (of_url u) (of_url v) = url_eq u v
  backend_eq (of_endpoint a) (of_endpoint b) = endpoint_eq a b
  backend_eq _ _ = false

  -- The text of an endpoint: address, colon, port.
  unfoldable pub endpoint_text : Endpoint → String
  endpoint_text e = text_append (asio.to_string e.address) (text_append ":" (decimal e.port))

  -- Backend::ToString
  unfoldable pub to_string : Backend → String
  unfolding endpoint_text
  to_string (of_url u) = Url.to_string u
  to_string (of_endpoint e) = endpoint_text e

  -- operator<<: what the log shows of a backend.
  pub log_text : Backend → String
  log_text (of_endpoint e) =
      text_append (asio.to_string e.address) (text_append ", " (decimal e.port))
  log_text (of_url u) = u.hostname

  -- The endpoint of an address that was parsed, or not.
  abbrev of_address : String → Option asio.Address → ℤ → Outcome Backend
  of_address ip none port = throws (bad_address ip)
  of_address ip (some a) port = ok (of_endpoint (record { address = a; port = to_port port }))

  -- Backend::Backend(const std::string& ip_address, int port)
  unfoldable pub make_endpoint : String → ℤ → Outcome Backend
  unfolding to_port
  make_endpoint ip_address port = of_address ip_address (asio.from_string ip_address) port

module _ ⦃asio : Asio⦄ ⦃ctre : Ctre⦄ where
  -- Backend::Backend(const std::string& url_string)
  unfoldable pub make_url_backend : String → Outcome Backend
  unfolding make_url
  make_url_backend url_string = do url ← make_url url_string; ok (of_url url)
