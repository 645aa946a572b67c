-- ===== src/Fixtures/Line.antt =====
-- A ring that is the list of the backends, of which the first is selected: a stand-in for the tests.
use lb.Common.{true, ◌≡◌, ◌↔◌, refl, inl, List, [], ◌∷◌, ◌++◌, Outcome, ok, throws, no_nodes, In}
use lb.Fixtures.{text_asio, host_ctre, zero_hash, decimal_cast}
use lb.Platform.Router.{Router}
use lb.Vectors.{remove_all, is_empty}
use lb.Vectors.Removal.{In-remove_all}
use lb.Backend.{Backend}
use lb.ConsistentHash.{backend_traits}

abbrev pub first : List Backend → Outcome Backend
first [] = throws no_nodes
first (b ∷ bs) = ok b

pub first-empty : (bs : List Backend) → bs ≡ [] → first bs ≡ throws no_nodes
first-empty [] e = refl
first-empty (b ∷ bs) e = cc

pub first-In : (b : Backend) (bs : List Backend) → first bs ≡ ok b → In b bs
first-In b [] h = cc
first-In b (x ∷ bs) h = inl cc

pub empty_iff_nil : (bs : List Backend) → (is_empty bs ≡ true) ↔ (bs ≡ [])
unfolding is_empty
empty_iff_nil [] = (λ e. refl, λ e. refl)
empty_iff_nil (b ∷ bs) = (λ e. cc, λ e. cc)

instance abbrev pub line : Router Backend backend_traits
line = record {
  Ring = List Backend;
  with_replicas = λ n. [];
  emplace_node = λ b bs. (bs ++ b ∷ [], ok tt);
  erase_node = remove_all;
  select_node = λ c bs. first bs;
  empty = is_empty;
  nodes = λ bs. bs;
  nodes_with_replicas = λ n. refl;
  empty_iff = empty_iff_nil;
  select_empty = λ c bs e. first-empty bs e;
  select_In = λ c b bs h. first-In b bs h;
  erase_In = λ n m bs h. ((In-remove_all n m bs).0 h).0;
}
