-- ===== src/Backend/RoundTrip.antt =====
-- The text of a backend of src/lb/tcp/selectors.cpp that was made from a URL.
use lb.Common.{String, ◌≡◌, ◌∙◌, ap, ok, >>=-returned, ok_injective}
use lb.Platform.{Asio, Ctre}
use lb.Url.{make_url}
use lb.Backend.{Backend, to_string, make_url_backend}
use lb.Backend.Equality.{whole_url-make_url}

module _ ⦃asio : Asio⦄ ⦃ctre : Ctre⦄ where
  pub to_string-made : (s : String) (b : Backend) → make_url_backend s ≡ ok b → to_string b ≡ s
  unfolding make_url_backend to_string
  to_string-made s b h =
      let (u, made, same) = >>=-returned (make_url s) _ h in
      rw (← ok_injective same) (whole_url-make_url s u made)

  -- Where the constructor of a URL backend returns, ToString is the text that it was made from, and
  -- makes the same backend again: protocol, host, port and the rest.
  pub make_url_backend-to_string :
      (s : String) (b : Backend)
      → make_url_backend s ≡ ok b
      → (to_string b ≡ s) × (make_url_backend (to_string b) ≡ ok b)
  make_url_backend-to_string s b h =
      let same = to_string-made s b h in (same, ap make_url_backend same ∙ h)
