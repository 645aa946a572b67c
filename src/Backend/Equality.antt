-- ===== src/Backend/Equality.antt =====
-- When two backends are equal.
use text.Mathlib.TextPositions.{eq_refl}
use lb.Common.{
  ok_injective, String, true, ◌≡◌, sym, ap, subst, ◌∙◌, ◌↔◌, Option, ok, ℤ, arith, eq_iff,
}
use lb.Platform.{Asio, Ctre, UrlMatch}
use lb.Url.{Url, url_eq, make_url, of_match}
use lb.Backend.{Backend, of_endpoint, of_url, backend_eq, make_endpoint, make_url_backend}

module _ ⦃asio : Asio⦄ where
  pub backend_eq_refl : (b : Backend) → backend_eq b b ≡ true
  unfolding backend_eq
  backend_eq_refl (of_url u) = eq_refl u.whole_url
  backend_eq_refl (of_endpoint e) = ground (arith, asio.address_eq_iff e.address e.address)

-- A URL keeps the text that it was read from.
whole_url-of_match :
    (s : String) (m : Option UrlMatch) (u : Url) → of_match s m ≡ ok u → u.whole_url ≡ s
unfolding of_match
whole_url-of_match s m u h = ground arith

module _ ⦃ctre : Ctre⦄ where
  pub whole_url-make_url : (s : String) (u : Url) → make_url s ≡ ok u → u.whole_url ≡ s
  unfolding make_url
  whole_url-make_url s u h = whole_url-of_match s (ctre.match_url s) u h

  -- The comparison of the texts tells two parsed URLs apart in every part.
  pub url_eq-make_url :
      (s t : String) (u v : Url) → make_url s ≡ ok u → make_url t ≡ ok v → url_eq u v ≡ true → u ≡ v
  url_eq-make_url s t u v hu hv e = ok_injective (sym hu ∙ ap make_url same_text ∙ hv)
    where
      same_text : s ≡ t
      same_text =
          sym (whole_url-make_url s u hu)
          ∙ (eq_iff u.whole_url v.whole_url).0 e
          ∙ whole_url-make_url t v hv

module _ ⦃asio : Asio⦄ ⦃ctre : Ctre⦄ where
  -- What a constructor of `Backend` makes of a text, or of an address and a port.
  pub data IsMade (b : Backend) : Type 0 where
    by_url : (s : String) → make_url_backend s ≡ ok b → IsMade b
    by_endpoint : (ip : String) (port : ℤ) → make_endpoint ip port ≡ ok b → IsMade b

  url-make_url_backend :
      (s : String) (u : Url) → make_url_backend s ≡ ok (of_url u) → make_url s ≡ ok u
  unfolding make_url_backend
  url-make_url_backend s u h = ground arith

  url-IsMade : (u : Url) → IsMade (of_url u) → (s : String) × (make_url s ≡ ok u)
  unfolding make_endpoint
  url-IsMade u (by_url s h) = (s, url-make_url_backend s u h)
  url-IsMade u (by_endpoint ip port h) = ground arith

  eq-backend_eq : (a b : Backend) → IsMade a → IsMade b → backend_eq a b ≡ true → a ≡ b
  unfolding backend_eq
  eq-backend_eq (of_url u) (of_url v) ma mb e =
      let (s, hu) = url-IsMade u ma in
      let (t, hv) = url-IsMade v mb in ap of_url (url_eq-make_url s t u v hu hv e)
  eq-backend_eq (of_endpoint a) (of_endpoint b) ma mb e =
      ground (arith, asio.address_eq_iff a.address b.address)
  eq-backend_eq (of_url u) (of_endpoint b) ma mb e = cc
  eq-backend_eq (of_endpoint a) (of_url v) ma mb e = cc

  -- On the backends that the constructors make, operator== is equality: of the variants, of address
  -- and port, and of every part of the URL.
  pub backend_eq_iff : (a b : Backend) → IsMade a → IsMade b → (backend_eq a b ≡ true) ↔ (a ≡ b)
  backend_eq_iff a b ma mb =
      (eq-backend_eq a b ma mb, λ e. subst (λ c. backend_eq a c ≡ true) e (backend_eq_refl a))
