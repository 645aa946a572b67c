-- ===== src/Common/Outcomes.antt =====
-- How a call of the program ends: it returns, throws, or its behaviour is undefined.
use Prim.Native.String.{String}
use mathlib.Core.Path.{◌≡◌, refl}
use mathlib.Core.List.{List, [], ◌∷◌}
use mathlib.Core.Option.{Option, none, some}
use lb.Common.Words.{ℤ}

-- What the program or a library under it throws.
pub data Exception : Type 0 where
  load_balancing_missing algorithm_missing replicas_missing : Exception
  unknown_algorithm : String → Exception
  endpoints_missing endpoints_not_sequence endpoint_undefined : Exception
  field_missing : String → Exception
  all_excluded : Exception
  invalid_url unknown_protocol : String → Exception
  bad_address : String → Exception
  bad_conversion bad_subscript bad_file : Exception
  no_nodes : Exception
  thread_pool_not_map acceptor_missing acceptor_not_map : Exception
  invalid_ip_version : ℤ → Exception
  logging_missing logging_not_map console_not_map file_not_map : Exception
  barrier_zero bad_variant not_connected : Exception

pub data Outcome {ℓ} (A : Type ℓ) : Type ℓ where
  ok : A → Outcome A
  throws : Exception → Outcome A
  undefined : Outcome A

-- What follows a call is run where the call returns.
infixl 5 ◌>>=◌
abbrev pub ◌>>=◌ {ℓ κ} : {A : Type ℓ} {B : Type κ} → Outcome A → (A → Outcome B) → Outcome B
undefined >>= rest = undefined
throws thrown >>= rest = throws thrown
ok result >>= rest = rest result

-- A call on an object returns the object as it leaves it, also where it throws.
abbrev pub Action {ℓ κ} : Type ℓ → Type κ → Type (ℓ ⊔ κ)
Action S A = S → S × Outcome A

-- The statements after a call are run where it returns.
abbrev pub and_then {ℓ κ μ} :
    {S : Type ℓ} {A : Type κ} {B : Type μ} → S × Outcome A → (A → Action S B) → S × Outcome B
and_then (s, ok a) rest = rest a s
and_then (s, throws e) rest = (s, throws e)
and_then (s, undefined) rest = (s, undefined)

-- `for (const auto& a : as) body(a)`: it ends early where the body throws.
unfoldable pub for_each {ℓ κ} :
    {S : Type ℓ} {A : Type κ} → (A → Action S (Unit {0})) → List A → Action S (Unit {0})
for_each body [] s = (s, ok tt)
for_each body (a ∷ rest) s = and_then (body a s) (λ _. for_each body rest)

-- `xs[i]` of a `std::vector`, from what stands at the index.
abbrev pub or_undefined {ℓ} : {A : Type ℓ} → Option A → Outcome A
or_undefined none = undefined
or_undefined (some a) = ok a

-- What a chain that returns has returned on the way.
module _ {ℓ κ} {A : Type ℓ} {B : Type κ} where
  pub >>=-returned :
      (call : Outcome A) (rest : A → Outcome B) {last : B}
      → (call >>= rest) ≡ ok last
      → (first : A) × (call ≡ ok first) × (rest first ≡ ok last)
  >>=-returned undefined rest returned = cc
  >>=-returned (throws thrown) rest returned = cc
  >>=-returned (ok first) rest returned = (first, refl, returned)

pub ok_injective {ℓ} : {A : Type ℓ} {a b : A} → ok a ≡ ok b → a ≡ b
ok_injective p = cc
