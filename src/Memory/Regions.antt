-- ===== src/Memory/Regions.antt =====
-- src/guest_memory.rs: `with_regions`, `with_regions_mut` and `map_and_fold`, which go through the
-- regions in their order.
use mathlib.Core.List.{foldl}
use vm_memory.Base.{ℕ, ◌+◌, ◌≡◌, refl, List, [], ◌∷◌, map, Outcome, panic, stuck, err, ok}
use vm_memory.Memory.{GuestMemory}

-- What `cb(index, region)?` leads to.
abbrev pub question :
    {E S : Type 0}
    → (S → Outcome E (Unit {0}) × S)
    → Outcome E (Unit {0}) × S
    → Outcome E (Unit {0}) × S
question rest (ok u, s) = rest s
question rest (err e, s) = (err e, s)
question rest (panic, s) = (panic, s)
question rest (stuck, s) = (stuck, s)

-- The loop from the region with the given index on; a callback changes a state.
pub each :
    {E R S : Type 0}
    → (ℕ → R → S → Outcome E (Unit {0}) × S)
    → ℕ
    → List R
    → S
    → Outcome E (Unit {0}) × S
each cb index [] s = (ok tt, s)
each cb index (r ∷ rs) s = question (each cb (index + 1) rs) (cb index r s)

abbrev pub enumerated : {R : Type 0} → ℕ → List R → List (ℕ × R)
enumerated index [] = []
enumerated index (r ∷ rs) = (index, r) ∷ enumerated (index + 1) rs

module _ {M R : Type 0} (gm : GuestMemory M R) (m : M) where
  pub with_regions_mut :
      {E S : Type 0} → (ℕ → R → S → Outcome E (Unit {0}) × S) → S → Outcome E (Unit {0}) × S
  unfolding each
  with_regions_mut cb s = each cb 0 (gm.iter m) s

  -- An `Fn` has no state.
  pub with_regions : {E : Type 0} → (ℕ → R → Outcome E (Unit {0})) → Outcome E (Unit {0})
  unfolding each
  with_regions cb = (each (λ index r s. (cb index r, s)) 0 (gm.iter m) (tt {0})).0

  pub map_and_fold : {T : Type 0} → T → (ℕ × R → T) → (T → T → T) → T
  map_and_fold init mapf foldf = foldl foldf init (map mapf (enumerated 0 (gm.iter m)))

-- A callback that gathers the regions.
each-foldl :
    {E R T : Type 0} (mapf : ℕ × R → T) (foldf : T → T → T) (index : ℕ) (rs : List R) (acc : T)
    → each {E = E} (λ i r t. (ok tt, foldf t (mapf (i, r)))) index rs acc
      ≡ (ok tt, foldl foldf acc (map mapf (enumerated index rs)))
unfolding each
each-foldl mapf foldf index [] acc = refl
each-foldl mapf foldf index (r ∷ rs) acc =
    each-foldl mapf foldf (index + 1) rs (foldf acc (mapf (index, r)))

-- `with_regions_mut` with a callback that only gathers gives what `map_and_fold` gives.
with_regions_mut-map_and_fold :
    {M R E T : Type 0} (gm : GuestMemory M R) (m : M) (init : T) (mapf : ℕ × R → T)
    (foldf : T → T → T)
    → with_regions_mut gm m {E = E} (λ i r t. (ok tt, foldf t (mapf (i, r)))) init
      ≡ (ok tt, map_and_fold gm m init mapf foldf)
unfolding with_regions_mut map_and_fold
with_regions_mut-map_and_fold gm m init mapf foldf = each-foldl mapf foldf 0 (gm.iter m) init

-- The loop ends at the first failure, with the state that its callback leaves.
with_regions_mut-err :
    {M R E S : Type 0} (gm : GuestMemory M R) (m : M) (cb : ℕ → R → S → Outcome E (Unit {0}) × S)
    (s s' : S) (r : R) (rs : List R) (e : E)
    → gm.iter m ≡ r ∷ rs
    → cb 0 r s ≡ (err e, s')
    → with_regions_mut gm m cb s ≡ (err e, s')
unfolding with_regions_mut each
with_regions_mut-err gm m cb s s' r rs e p q = rw (p, q) refl
