-- ===== src/Path/Loops.antt =====
-- What `TPath::VerifyLoopFree` of src/tedbManager/tewg.cc verifies.
use mxtce_geni_scs.Base.{
  ℕ, zero, suc, ◌+◌, ◌<◌, ◌≡◌, ◌↔◌, refl, true, false, Option, none, some, List, [], ◌∷◌, ◌==◌,
  get_elem?, arith, Bool-cases, inl, inr,
}
use mxtce_geni_scs.Path.{has_node, verify_loop_free}

-- Two links that are not neighbours have the same node.
unfoldable pub Revisits : List (Option ℕ) → Type 0
Revisits path =
    (i : ℕ) × (j : ℕ) × (n : ℕ) × (i + 1 < j)
    × (get_elem? path i ≡ some (some n))
    × (get_elem? path j ≡ some (some n))

has_node-found :
    (n j : ℕ)
    → (links : List (Option ℕ)) → get_elem? links j ≡ some (some n)
    → has_node n links ≡ true
unfolding has_node
has_node-found n j [] h = ground arith
has_node-found n zero (none ∷ links) h = ground arith
has_node-found n zero (some m ∷ links) h = ground arith
has_node-found n (suc j) (none ∷ links) h = has_node-found n j links h
has_node-found n (suc j) (some m ∷ links) h = ground (arith, has_node-found n j links h)

has_node-place :
    (n : ℕ)
    → (links : List (Option ℕ)) → has_node n links ≡ true
    → (j : ℕ) × (get_elem? links j ≡ some (some n))
unfolding has_node
has_node-place n [] h = ground arith
has_node-place n (none ∷ links) h = let (j, e) = has_node-place n links h in (suc j, e)
has_node-place n (some m ∷ links) h = elim (Bool-cases (n == m)) [
  | inl same ↦ (zero, ground (arith, same))
  | inr other ↦ let (j, e) = has_node-place n links (ground (arith, h, other)) in (suc j, e)
]

Revisits-later :
    (link : Option ℕ) → (path : List (Option ℕ)) → Revisits path → Revisits (link ∷ path)
unfolding Revisits
Revisits-later link path (i, j, n, far, e, e') = (suc i, suc j, n, omega (arith, far), e, e')

revisit_found : (path : List (Option ℕ)) → verify_loop_free path ≡ false → Revisits path
unfolding verify_loop_free
revisit_found [] h = ground arith
revisit_found (none ∷ links) h = Revisits-later none links (revisit_found links h)
revisit_found (some n ∷ []) h = ground arith
revisit_found (some n ∷ link ∷ []) h = ground arith
revisit_found (some n ∷ link ∷ next ∷ links) h = elim (Bool-cases (has_node n (next ∷ links))) [
  | inl there ↦
      let (j, e) = has_node-place n (next ∷ links) there in
      unfold Revisits in (zero, suc (suc j), n, omega arith, refl, e)
  | inr free ↦
      Revisits-later (some n) (link ∷ next ∷ links)
        (revisit_found (link ∷ next ∷ links) (ground (arith, h, free)))
]

revisit_rejected :
    (path : List (Option ℕ))
    → (i j n : ℕ) → i + 1 < j
    → get_elem? path i ≡ some (some n)
    → get_elem? path j ≡ some (some n)
    → verify_loop_free path ≡ false
unfolding verify_loop_free
revisit_rejected [] i j n far e e' = ground arith
revisit_rejected (none ∷ links) zero j n far e e' = ground arith
revisit_rejected (none ∷ links) (suc i) zero n far e e' = absurd (omega arith)
revisit_rejected (none ∷ links) (suc i) (suc j) n far e e' =
    revisit_rejected links i j n (omega arith) e e'
revisit_rejected (some m ∷ []) i zero n far e e' = absurd (omega arith)
revisit_rejected (some m ∷ []) i (suc j) n far e e' = ground arith
revisit_rejected (some m ∷ link ∷ []) i zero n far e e' = absurd (omega arith)
revisit_rejected (some m ∷ link ∷ []) i (suc zero) n far e e' = absurd (omega arith)
revisit_rejected (some m ∷ link ∷ []) i (suc (suc j)) n far e e' = ground arith
revisit_rejected (some m ∷ link ∷ next ∷ links) i zero n far e e' = absurd (omega arith)
revisit_rejected (some m ∷ link ∷ next ∷ links) i (suc zero) n far e e' = absurd (omega arith)
revisit_rejected (some m ∷ link ∷ next ∷ links) zero (suc (suc j)) n far e e' =
    let there = has_node-found n j (next ∷ links) e' in
    let same : m ≡ n = ground (arith, e) in rw (same, there)
revisit_rejected (some m ∷ link ∷ next ∷ links) (suc i) (suc (suc j)) n far e e' =
    let rest = revisit_rejected (link ∷ next ∷ links) i (suc j) n (omega arith) e e' in
    ground (arith, rest)

-- `VerifyLoopFree` rejects exactly the paths that have two links, not next to each other, with the same node.
pub verify_loop_free_iff :
    (path : List (Option ℕ)) → (verify_loop_free path ≡ false) ↔ Revisits path
unfolding Revisits
verify_loop_free_iff path =
    (revisit_found path, λ (i, j, n, far, e, e'). revisit_rejected path i j n far e e')
