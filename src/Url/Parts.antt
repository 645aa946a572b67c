-- ===== src/Url/Parts.antt =====
-- Which URL the constructor of src/lb/url.cpp makes of a text.
use lb.Common.{
  String, false, ◌≡◌, ◌↔◌, ◌⊎◌, inl, inr, refl, sym, ap, subst, List, [], ◌∷◌, In, some,
  Option-cases, Outcome, ok, throws, >>=-returned, ok_injective, Bool-cases, str_eq, eq_iff, drop,
  if◌then◌else◌, unknown_protocol,
}
use lb.Platform.{Ctre, UrlMatch}
use lb.Url.{Url, default_protocol_port, or_default, of_match, make_url}

-- The protocols that have a port of their own, each with the port that is registered for it.
abbrev pub well_known : List (String × String)
well_known = ("http", "80") ∷ ("https", "443") ∷ ("ftp", "21") ∷ ("ssh", "22") ∷ []

-- A part is the text of its group, where the group has one, and else it is as `Default` tells.
abbrev pub Part : String → String → Type 0 → Type 0
Part text part Default = ((text ≡ "") × Default) ⊎ ((str_eq text "" ≡ false) × (part ≡ text))

-- The parts of a URL by the groups of a match.
abbrev pub Parts : UrlMatch → Url → Type 0
Parts m u =
    (u.hostname ≡ m.hostname)
    × (u.path ≡ m.path)
    × (u.query ≡ m.query)
    × (u.fragment ≡ m.fragment)
    × Part m.protocol u.protocol (u.protocol ≡ "http")
    × Part m.port u.port (In (u.protocol, u.port) well_known)

or_default-Part :
    (text part : String) (fallback : Outcome String) (Default : Type 0)
    → (fallback ≡ ok part → Default)
    → or_default text fallback ≡ ok part
    → Part text part Default
or_default-Part text part fallback Default default h = elim (Bool-cases (str_eq text "")) [
  | inl empty ↦ inl ((eq_iff text "").0 empty, default (rw empty at h))
  | inr given ↦ let same : ok text ≡ ok part = rw given at h in inr (given, sym (ok_injective same))
]

Part-or_default :
    (text part : String) (fallback : Outcome String) (Default : Type 0)
    → (Default → fallback ≡ ok part)
    → Part text part Default
    → or_default text fallback ≡ ok part
Part-or_default text part fallback Default default (inl (empty, d)) = rw empty (default d)
Part-or_default text part fallback Default default (inr (given, same)) = rw given (ap ok (sym same))

pair : {a b c d : String} → a ≡ b → c ≡ d → ◌≡◌ {A = String × String} (a, c) (b, d)
pair e f = λ i. (e i, f i)

-- A test of a protocol before the others.
found_port :
    (protocol key port registered : String) (other : Outcome String) (rows : List (String × String))
    → (other ≡ ok port → In (protocol, port) rows)
    → (if str_eq protocol key then ok registered else other) ≡ ok port
    → In (protocol, port) ((key, registered) ∷ rows)
found_port protocol key port registered other rows later h =
    elim (Bool-cases (str_eq protocol key)) [
      | inl same ↦
          let here : ok registered ≡ ok port = rw same at h in
          inl (pair ((eq_iff protocol key).0 same) (sym (ok_injective here)))
      | inr differ ↦ inr (later (rw differ at h))
    ]

default_protocol_port-In :
    (protocol port : String)
    → default_protocol_port protocol ≡ ok port
    → In (protocol, port) well_known
unfolding default_protocol_port
default_protocol_port-In protocol port =
    found_port protocol "http" port "80" _ (drop 1 well_known) (
      found_port protocol "https" port "443" _ (drop 2 well_known) (
        found_port protocol "ftp" port "21" _ (drop 3 well_known)
          (found_port protocol "ssh" port "22" (throws (unknown_protocol protocol)) [] (λ h. cc))))

-- A row of the list is what the function tells.
abbrev Registered : String × String → Type 0
Registered row = default_protocol_port row.0 ≡ ok row.1

In-default_protocol_port : (row : String × String) → In row well_known → Registered row
unfolding default_protocol_port
In-default_protocol_port row (inl e) = subst Registered (sym e) refl
In-default_protocol_port row (inr (inl e)) = subst Registered (sym e) refl
In-default_protocol_port row (inr (inr (inl e))) = subst Registered (sym e) refl
In-default_protocol_port row (inr (inr (inr (inl e)))) = subst Registered (sym e) refl
In-default_protocol_port row (inr (inr (inr (inr none_left)))) = absurd none_left

of_match-Parts :
    (s : String) (m : UrlMatch) (u : Url)
    → of_match s (some m) ≡ ok u
    → (u.whole_url ≡ s) × Parts m u
unfolding of_match
of_match-Parts s m u h =
    let (protocol, read, h1) = >>=-returned (or_default m.protocol (ok "http")) _ h in
    let (port, found, made) =
      >>=-returned (or_default m.port (default_protocol_port protocol)) _ h1 in
    let Described : Url → Type 0 = λ u. (u.whole_url ≡ s) × Parts m u in
    subst Described (ok_injective made) (
      refl,
      (
        refl,
        refl,
        refl,
        refl,
        or_default-Part m.protocol protocol (ok "http") (protocol ≡ "http")
            (λ e. sym (ok_injective e)) read,
        or_default-Part m.port port (default_protocol_port protocol)
            (In (protocol, port) well_known) (default_protocol_port-In protocol port) found,
      ),
    )

Parts-of_match :
    (s : String) (m : UrlMatch) (u : Url) → u.whole_url ≡ s → Parts m u → of_match s (some m) ≡ ok u
unfolding of_match
Parts-of_match s m u whole (host, path, query, fragment, protocol, port) =
    let read : or_default m.protocol (ok "http") ≡ ok u.protocol =
      Part-or_default m.protocol u.protocol (ok "http") (u.protocol ≡ "http") (λ e. ap ok (sym e))
        protocol in
    let found : or_default m.port (default_protocol_port u.protocol) ≡ ok u.port =
      Part-or_default m.port u.port (default_protocol_port u.protocol)
        (In (u.protocol, u.port) well_known) (In-default_protocol_port (u.protocol, u.port)) port in
    rw read (
      rw found (λ i. ok (record {
        whole_url = sym whole i;
        protocol = u.protocol;
        hostname = sym host i;
        port = u.port;
        path = sym path i;
        query = sym query i;
        fragment = sym fragment i;
      })))

module _ ⦃ctre : Ctre⦄ where
  -- The constructor makes a URL of a text exactly where the regular expression matches it, and the
  -- URL has the text and the host, path, query and fragment of the groups, the protocol of its
  -- group or http where it is empty, and the port of its group or, where it is empty, the
  -- registered one of the protocol: 80 for http, 443 for https, 21 for ftp, 22 for ssh, and no URL
  -- for another.
  pub make_url_iff :
      (s : String) (u : Url)
      → (make_url s ≡ ok u)
        ↔ ((u.whole_url ≡ s) × ((m : UrlMatch) × (ctre.match_url s ≡ some m) × Parts m u))
  unfolding make_url of_match
  make_url_iff s u =
      (there, λ (whole, (m, matched, parts)). rw matched (Parts-of_match s m u whole parts))
    where
      there :
          make_url s ≡ ok u
          → (u.whole_url ≡ s) × ((m : UrlMatch) × (ctre.match_url s ≡ some m) × Parts m u)
      there h = elim (Option-cases (ctre.match_url s)) [
        | inl no_match ↦ let thrown : throws _ ≡ ok u = rw no_match at h in cc
        | inr (m, matched) ↦
            let (whole, parts) = of_match-Parts s m u (rw matched at h) in
            (whole, (m, matched, parts))
      ]
