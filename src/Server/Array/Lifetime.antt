-- ===== src/Server/Array/Lifetime.antt =====
-- The life of a fixed_array, whether or not a constructor throws.
use http_io.Common.{
  ℕ, zero, suc, ◌+◌, ◌<◌, ◌≡◌, ◌↔◌, refl, sym, ap, ◌∙◌, take, take_all, ◌⊎◌, inl, inr, true, false,
  List, [], ◌∷◌, ◌++◌, Option, arith, length, length-append, Option-cases,
}
use http_io.Server.Array.{
  Memory, allocate, construct, FixedArray, constructed, construct_more, unstored, stored,
  fixed_array, range,
}

-- The elements below an index, constructed upwards.
unfoldable pub construct_up : ℕ → List Memory
construct_up zero = []
construct_up (suc n) = construct_up n ++ construct n ∷ []

module _ {S T : Type 0} (ctor : S → Option (T × S)) where
  -- The elements so far are constructed, in storage for `total`.
  record IsBuilt (total : ℕ) (a : FixedArray S T) : Type 0 where
    has_memory : a.memory ≡ allocate total ∷ construct_up a.n_
    has_storage : a.is_stored ≡ true
    counted : length a.elements ≡ a.n_
    ended : ((a.threw ≡ true) × (a.n_ < total)) ⊎ ((a.threw ≡ false) × (a.n_ ≡ total))

  construct_more-IsBuilt :
      (rounds total : ℕ) (a : FixedArray S T)
      → a.memory ≡ allocate total ∷ construct_up a.n_
      → a.is_stored ≡ true
      → length a.elements ≡ a.n_
      → a.threw ≡ false
      → a.n_ + rounds ≡ total
      → IsBuilt total (construct_more ctor rounds a)
  unfolding construct_more constructed construct_up
  construct_more-IsBuilt zero total a m k c t h = record {
    has_memory = m;
    has_storage = k;
    counted = c;
    ended = inr (t, omega arith);
  }
  construct_more-IsBuilt (suc rounds) total a m k c t h = elim (Option-cases (ctor a.state)) [
    | inl e ↦
        rw (e, construct_more)
          (record { has_memory = m; has_storage = k; counted = c; ended = inl (refl, omega arith) })
    | inr ((x, s), e) ↦
        rw (e, construct_more)
          (construct_more-IsBuilt rounds total (constructed x s a)
            (ap (λ l. l ++ construct a.n_ ∷ []) m) k
            (omega (arith, length-append a.elements (x ∷ []))) t (omega arith))
  ]

  fixed_array-IsBuilt : (total : ℕ) (s : S) → IsBuilt total (fixed_array ctor total s)
  unfolding fixed_array construct_up unstored stored
  fixed_array-IsBuilt total s =
      construct_more-IsBuilt total total _ refl refl refl refl (omega arith)

  -- The loops over an array visit every element.
  pub range-fixed_array :
      (total : ℕ) (s : S) → range (fixed_array ctor total s) ≡ (fixed_array ctor total s).elements
  unfolding range
  range-fixed_array total s =
      ap (λ n. take n (fixed_array ctor total s).elements)
        (sym (fixed_array-IsBuilt total s).counted)
      ∙ take_all (fixed_array ctor total s).elements

  -- The number passed to deallocate is that of allocate exactly if no constructor threw.
  pub fixed_array_deallocates :
      (total : ℕ) (s : S) → let a = fixed_array ctor total s in (a.n_ ≡ total) ↔ (a.threw ≡ false)
  fixed_array_deallocates total s =
      let built = fixed_array-IsBuilt total s in ground (arith, built.ended)
