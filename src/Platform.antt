-- ===== src/Platform.antt =====
-- What the program takes from libraries whose sources are not in the repository:
-- Boost.Asio addresses, CTRE, yaml-cpp and the hash function of the standard library.
pub mod Heap
pub mod Router
use lb.Common.{
  size_mod, ◌<◌, [], ◌∷◌, ◌≤◌, Perm, In, ltb, ℕ, String, Bool, true, false, ◌≡◌, ◌↔◌, Option, List,
  ℤ, Outcome, throws, bad_conversion,
}

-- boost::asio::ip::address, as far as the program uses it. `from_string` throws on a bad text.
pub record Asio : Type 1 where
  pub Address : Type 0
  pub from_string : String → Option Address
  pub to_string : Address → String
  pub address_eq : Address → Address → Bool
  pub address_eq_iff : (a b : Address) → (address_eq a b ≡ true) ↔ (a ≡ b)

-- The texts of the groups 2, 3, 5, 6, 8 and 10 of a match of `Url::url_pattern`; a group that took
-- no part in the match has the empty text.
pub record UrlMatch : Type 0 where
  pub protocol : String
  pub hostname : String
  pub port : String
  pub path : String
  pub query : String
  pub fragment : String

-- ctre::match<url_pattern>
pub record Ctre : Type 0 where
  pub match_url : String → Option UrlMatch

-- YAML::Node: `child n k` is `n[k]` where `n` is no scalar (on a scalar operator[] throws
-- BadSubscript, which the definitions write out), `elements` what iteration over a sequence yields, and each
-- `as_…` is `as<…>()`, which throws on a node that is not defined.
pub record Yaml : Type 1 where
  pub Node : Type 0
  pub child : Node → String → Node
  pub is_defined : Node → Bool
  pub is_sequence : Node → Bool
  pub is_map : Node → Bool
  pub is_scalar : Node → Bool
  pub elements : Node → List Node
  pub as_string : Node → Outcome String
  pub as_int : Node → Outcome ℤ
  pub as_size : Node → Outcome ℕ
  pub as_unsigned : Node → Outcome ℕ
  pub as_bool : Node → Outcome Bool
  pub as_int_undefined : (n : Node) → is_defined n ≡ false → as_int n ≡ throws bad_conversion

-- No later element has a larger key.
abbrev pub Descending : {A : Type 0} → (A → ℕ) → List A → Type 0
Descending {A} key [] = Unit
Descending {A} key (x ∷ xs) = ((y : A) → In y xs → key y ≤ key x) × Descending key xs

-- std::sort with a comparison of keys. The order of elements with equal keys is not specified.
pub record StdSort : Type 1 where
  pub sort : {A : Type 0} → (A → A → Bool) → List A → List A
  pub sort_perm : {A : Type 0} (less : A → A → Bool) (xs : List A) → Perm (sort less xs) xs
  pub sort_by_key :
      {A : Type 0} (key : A → ℕ) (xs : List A)
      → Descending key (sort (λ a b. ltb (key b) (key a)) xs)

-- std::hash<std::string>, with values of type std::size_t.
pub record StdHash : Type 0 where
  pub hash : String → ℕ
  pub hash_fits : (s : String) → hash s < size_mod

-- boost::lexical_cast<std::string>(int), on numbers that are not negative.
pub record LexicalCast : Type 0 where
  pub cast : ℕ → String

-- The arithmetic of `double`, and the conversion from `long`, with the literals of the program.
pub record Double : Type 1 where
  pub Number : Type 0
  pub zero_point_zero : Number
  pub zero_point_nine : Number
  pub one : Number
  pub of_long : ℤ → Number
  pub add : Number → Number → Number
  pub sub : Number → Number → Number
  pub mul : Number → Number → Number
  pub gtb : Number → Number → Bool
  pub gtb_irreflexive : (a : Number) → gtb a a ≡ false
