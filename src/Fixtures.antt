-- ===== src/Fixtures.antt =====
-- Concrete stand-ins for the libraries, for the tests: an address is its text, a URL match takes the
-- whole text for the host, and a document is a tree.
pub mod Slots
pub mod Sorting
pub mod Line
use text.Mathlib.TextEquality.{eq_iff}
use lb.Common.{
  ℕ, String, Bool, true, false, ◌≡◌, refl, Option, none, some, List, [], ◌∷◌, Outcome, ok, throws,
  bad_conversion, ℤ, pos, negsuc, str_eq, if◌then◌else◌, decimal, arith, ltb, ◌+◌, ◌-◌, ◌*◌,
}
use lb.Platform.{Asio, Ctre, UrlMatch, Yaml, StdSort, StdHash, LexicalCast, Double}
use lb.Backend.{Backend, of_endpoint}

instance abbrev pub text_asio : Asio
text_asio = record {
  Address = String;
  from_string = λ s. if str_eq s "" then none else some s;
  to_string = λ a. a;
  address_eq = str_eq;
  address_eq_iff = eq_iff;
}

instance abbrev pub host_ctre : Ctre
host_ctre = record {
  match_url = λ s.
      if str_eq s ""
      then none
      else some
          (record { protocol = ""; hostname = s; port = ""; path = ""; query = ""; fragment = "" });
}

mutual
  pub data Doc : Type 0 where
    missing : Doc
    str : String → Doc
    number : ℤ → Doc
    flag : Bool → Doc
    seq : Docs → Doc
    map : Entries → Doc

  pub data Docs : Type 0 where
    nil : Docs
    cons : Doc → Docs → Docs

  pub data Entries : Type 0 where
    end : Entries
    entry : String → Doc → Entries → Entries

abbrev find_entry : Entries → String → Doc
find_entry end k = missing
find_entry (entry j d rest) k = if str_eq j k then d else find_entry rest k

abbrev child_of : Doc → String → Doc
child_of (map es) k = find_entry es k
child_of _ k = missing

abbrev docs : Docs → List Doc
docs nil = []
docs (cons d ds) = d ∷ docs ds

abbrev elements_of : Doc → List Doc
elements_of (seq ds) = docs ds
elements_of _ = []

abbrev is_there : Doc → Bool
is_there missing = false
is_there _ = true

abbrev is_seq : Doc → Bool
is_seq (seq _) = true
is_seq _ = false

abbrev is_a_map : Doc → Bool
is_a_map (map _) = true
is_a_map _ = false

abbrev is_a_scalar : Doc → Bool
is_a_scalar (str _) = true
is_a_scalar (number _) = true
is_a_scalar (flag _) = true
is_a_scalar _ = false

abbrev text_of : Doc → Outcome String
text_of (str s) = ok s
text_of _ = throws bad_conversion

abbrev int_of : Doc → Outcome ℤ
int_of (number i) = ok i
int_of _ = throws bad_conversion

abbrev size_of : Doc → Outcome ℕ
size_of (number (pos n)) = ok n
size_of _ = throws bad_conversion

abbrev flag_of : Doc → Outcome Bool
flag_of (flag b) = ok b
flag_of _ = throws bad_conversion

pub int_of_missing : (d : Doc) → is_there d ≡ false → int_of d ≡ throws bad_conversion
int_of_missing missing e = refl
int_of_missing (str s) e = cc
int_of_missing (number i) e = cc
int_of_missing (flag b) e = cc
int_of_missing (seq ds) e = cc
int_of_missing (map es) e = cc

instance abbrev pub doc_yaml : Yaml
doc_yaml = record {
  Node = Doc;
  child = child_of;
  is_defined = is_there;
  is_sequence = is_seq;
  is_map = is_a_map;
  is_scalar = is_a_scalar;
  elements = elements_of;
  as_string = text_of;
  as_int = int_of;
  as_size = size_of;
  as_unsigned = size_of;
  as_bool = flag_of;
  as_int_undefined = int_of_missing;
}

-- A backend on the local host.
abbrev pub local : ℕ → Backend
local port = of_endpoint (record { address = "127.0.0.1"; port = port })

-- Every text has the hash 0.
instance abbrev pub zero_hash : StdHash
zero_hash = record { hash = λ s. 0; hash_fits = λ s. omega arith }

instance abbrev pub decimal_cast : LexicalCast
decimal_cast = record { cast = decimal }

abbrev whole : ℤ → ℕ
whole (pos n) = n
whole (negsuc n) = 0

pub ltb_irreflexive : (a : ℕ) → ltb a a ≡ false
ltb_irreflexive a = ground arith

-- Numbers without a fraction.
instance abbrev pub whole_numbers : Double
whole_numbers = record {
  Number = ℕ;
  zero_point_zero = 0;
  zero_point_nine = 1;
  one = 1;
  of_long = whole;
  add = ◌+◌;
  sub = ◌-◌;
  mul = ◌*◌;
  gtb = λ a b. ltb b a;
  gtb_irreflexive = ltb_irreflexive;
}
