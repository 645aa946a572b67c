-- ===== src/Backend/Tests.antt =====
-- Backends made from concrete texts.
use lb.Common.{◌≡◌, ◌↔◌, refl, true, ok, pos}
use lb.Fixtures.{text_asio, host_ctre}
use lb.Url.{Url, make_url}
use lb.Backend.{Backend, of_endpoint, of_url, backend_eq, make_endpoint, make_url_backend}
use lb.Backend.Equality.{IsMade, by_endpoint, by_url, backend_eq_iff}

abbrev site : Url
site = record {
  whole_url = "a.org";
  protocol = "http";
  hostname = "a.org";
  port = "80";
  path = "";
  query = "";
  fragment = "";
}

site-made : make_url "a.org" ≡ ok site
unfolding make_url
site-made = refl

abbrev local_port : Backend
local_port = of_endpoint (record { address = "127.0.0.1"; port = 80 })

local_port-IsMade : IsMade local_port
unfolding make_endpoint
local_port-IsMade = by_endpoint "127.0.0.1" (pos 65616) refl

site-IsMade : IsMade (of_url site)
unfolding make_url_backend
site-IsMade = by_url "a.org" refl

backend_eq_iff_example : (backend_eq local_port (of_url site) ≡ true) ↔ (local_port ≡ of_url site)
backend_eq_iff_example = backend_eq_iff local_port (of_url site) local_port-IsMade site-IsMade
