-- ===== src/Url/Tests.antt =====
-- A URL without protocol and port.
use lb.Common.{◌≡◌, ◌↔◌, some, ok}
use lb.Platform.{UrlMatch}
use lb.Fixtures.{host_ctre}
use lb.Url.{Url, make_url}
use lb.Url.Parts.{Parts, make_url_iff}

abbrev site : Url
site = record {
  whole_url = "a.org";
  protocol = "http";
  hostname = "a.org";
  port = "80";
  path = "";
  query = "";
  fragment = "";
}

make_url_iff_example : (make_url "a.org" ≡ ok site) ↔ (
    (site.whole_url ≡ "a.org")
    × ((m : UrlMatch) × (host_ctre.match_url "a.org" ≡ some m) × Parts m site))
make_url_iff_example = make_url_iff "a.org" site
