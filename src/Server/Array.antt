-- ===== src/Server/Array.antt =====
-- fixed_array of example/server/fixed_array.hpp, and the workers that an acceptor makes with it.
pub mod Lifetime
use http_io.Common.{
  ℕ, zero, suc, Bool, true, false, List, [], ◌∷◌, ◌++◌, Option, none, some, take, if◌then◌else◌,
}

-- What happens to the storage: it is allocated for a number of elements, each element at its index
-- is constructed and destroyed, and the storage is deallocated with the number that is passed.
pub data Memory : Type 0 where
  allocate construct destroy deallocate : ℕ → Memory

-- `n_` elements, and what the constructors left.
pub record FixedArray (S T : Type 0) : Type 0 where
  -- `t_` is not null.
  pub is_stored : Bool
  pub n_ : ℕ
  pub elements : List T
  pub state : S
  -- An element's constructor threw.
  pub threw : Bool
  pub memory : List Memory

-- `for(auto n = n_; n--;) t_[n].~T();`
pub destroy_down : ℕ → List Memory
destroy_down zero = []
destroy_down (suc n) = destroy n ∷ destroy_down n

module _ {S T : Type 0} where
  unfoldable pub constructed : T → S → FixedArray S T → FixedArray S T
  constructed x s a = record a {
    n_ = suc a.n_;
    elements = a.elements ++ x ∷ [];
    state = s;
    memory = a.memory ++ construct a.n_ ∷ [];
  }

  -- `while(n_ < N)`, on the number of rounds left. A constructor gives the element, or throws.
  unfoldable pub construct_more : (S → Option (T × S)) → ℕ → FixedArray S T → FixedArray S T
  construct_more ctor zero a = a
  construct_more ctor (suc rounds) a = elim (ctor a.state) [
    | none ↦ record a { threw = true }
    | some (x, s) ↦ construct_more ctor rounds (constructed x s a)
  ]

  -- `~fixed_array`
  unfoldable pub destruct : FixedArray S T → List Memory
  unfolding destroy_down
  destruct a =
      if a.is_stored then a.memory ++ (destroy_down a.n_ ++ deallocate a.n_ ∷ []) else a.memory

  -- `fixed_array()`, with the members' initializers; `s` is for the constructors to come.
  unfoldable pub unstored : S → FixedArray S T
  unstored s = record {
    is_stored = false;
    n_ = 0;
    elements = [];
    state = s;
    threw = false;
    memory = [];
  }

  -- `t_ = allocate(N)`; where that throws, the array stays as it is, and only the destructor runs.
  unfoldable pub stored : ℕ → FixedArray S T → FixedArray S T
  stored n a = record a { is_stored = true; memory = a.memory ++ allocate n ∷ [] }

  unfoldable pub fixed_array : (S → Option (T × S)) → ℕ → S → FixedArray S T
  unfolding unstored stored
  fixed_array ctor n s = construct_more ctor n (stored n (unstored s))

  unfoldable pub size : FixedArray S T → ℕ
  size a = a.n_

  -- The elements from `begin()` to `end()`.
  unfoldable pub range : FixedArray S T → List T
  unfolding size
  range a = take (size a) a.elements
