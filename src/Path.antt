-- ===== src/Path.antt =====
-- Checks on links and paths: `TSpec` of src/tedbManager/tewg.hh, and `IsAvailableForTspec`, `VerifyEdgeLinkTSpec` and
-- `VerifyLoopFree` of src/tedbManager/tewg.cc. A link of a path is the node of its port, or null.
pub mod Loops
pub mod Specs
use mxtce_geni_scs.Base.{
  ℕ, Bool, true, false, ◌&&◌, ◌||◌, Option, none, some, List, [], ◌∷◌, leb, ◌==◌, if◌then◌else◌,
}
use mxtce_geni_scs.Delta.{Iscd, psc_1, psc_4, l2sc_type, tdm_type, lsc_type, fsc_type}

pub record Tspec : Type 0 where
  pub sw_type : ℕ
  pub enc_type : ℕ
  pub bandwidth : ℕ

-- `Update` from a descriptor.
unfoldable pub update : Iscd → Tspec
update iscd = record {
  sw_type = iscd.switching_type;
  enc_type = iscd.encoding_type;
  bandwidth = iscd.capacity;
}

unfoldable pub same_tspec : Tspec → Tspec → Bool
same_tspec s t =
    (s.sw_type == t.sw_type) && (s.enc_type == t.enc_type) && (s.bandwidth == t.bandwidth)

unfoldable pub within_tspec : Tspec → Tspec → Bool
within_tspec s t =
    (s.sw_type == t.sw_type) && (s.enc_type == t.enc_type) && leb s.bandwidth t.bandwidth

-- The switching types for which bandwidth counts.
unfoldable pub shares_bandwidth : ℕ → Bool
shares_bandwidth sw_type =
    (sw_type == tdm_type) || leb psc_1 sw_type && leb sw_type psc_4 || (sw_type == l2sc_type)

unfoldable pub is_available_for_tspec : Tspec → List Iscd → Bool
is_available_for_tspec tspec [] = false
is_available_for_tspec tspec (iscd ∷ iscds) =
    let link = update iscd in
    let rest = is_available_for_tspec tspec iscds in
    if same_tspec tspec link
    then true
    else if ((tspec.sw_type == lsc_type) || (tspec.sw_type == fsc_type))
        && (link.sw_type == tspec.sw_type)
        && (link.enc_type == tspec.enc_type)
    then true
    else if within_tspec tspec link
    then if shares_bandwidth tspec.sw_type then true else rest
    else rest

unfoldable pub verify_edge_link_tspec : Tspec → List Iscd → Bool
verify_edge_link_tspec tspec [] = false
verify_edge_link_tspec tspec (iscd ∷ iscds) =
    let link = update iscd in
    let rest = verify_edge_link_tspec tspec iscds in
    if link.enc_type == tspec.enc_type
    then if same_tspec tspec link
      then true
      else if within_tspec tspec link
      then if shares_bandwidth tspec.sw_type then true else rest
      else rest
    else rest

-- The inner loop: whether a link of the list has the node.
unfoldable pub has_node : ℕ → List (Option ℕ) → Bool
has_node n [] = false
has_node n (none ∷ links) = has_node n links
has_node n (some m ∷ links) = (n == m) || has_node n links

-- The inner loop starts two links further on.
unfoldable pub verify_loop_free : List (Option ℕ) → Bool
verify_loop_free [] = true
verify_loop_free (none ∷ links) = verify_loop_free links
verify_loop_free (some n ∷ []) = true
verify_loop_free (some n ∷ link ∷ []) = true
verify_loop_free (some n ∷ link ∷ next ∷ links) =
    let rest = verify_loop_free (link ∷ next ∷ links) in
    if has_node n (next ∷ links) then false else rest
