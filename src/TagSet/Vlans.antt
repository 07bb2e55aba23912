-- ===== src/TagSet/Vlans.antt =====
-- Sets of VLAN tags, `ConstraintTagSet(MAX_VLAN_NUM)` of src/common/utils.hh: the tags 1 to 4096.
use mathlib.Core.Path.{subst}
use mxtce_geni_scs.Base.{
  zero, ap, sym, ◌∙◌, ◌%◌, ◌^◌, ℕ, suc, ◌+◌, ◌-◌, ◌/◌, ◌≤◌, ◌<◌, ◌≡◌, refl, false, not, ◌&&◌, ◌||◌,
  some, length, replicate, get_or, length-replicate, arith,
}
use mxtce_geni_scs.TagSet.{
  TagSet, new, new_grid, IsValid, max_vlan_num, add_bitmask, delete_bitmask, intersect, clear,
  has_tag, holds, slot,
}
use mxtce_geni_scs.TagSet.Byte.{test-zero}
use mxtce_geni_scs.TagSet.Slots.{IsBytes}
use mxtce_geni_scs.TagSet.Combine.{allows, allows-intersect}
use mxtce_geni_scs.TagSet.Bitmasks.{SameGrid, has_tag-add_bitmask, has_tag-delete_bitmask}

pub record IsVlans (s : TagSet) : Type 0 where
  pub valid : IsValid s
  pub bits : s.num_bits ≡ max_vlan_num
  pub from_1 : s.base ≡ 1
  pub one_by_one : s.interval ≡ 1

grid-IsVlans : (s r : TagSet) → IsVlans s → IsValid r → SameGrid r s → IsVlans r
grid-IsVlans s r v valid grid = record {
  valid = valid;
  bits = grid.same_bits ∙ v.bits;
  from_1 = grid.same_base ∙ v.from_1;
  one_by_one = grid.same_interval ∙ v.one_by_one;
}

-- A tag that a set of VLAN tags can hold.
abbrev pub IsVlan : ℕ → Type 0
IsVlan u = (0 < u) × (u ≤ max_vlan_num)

replicate-IsBytes : (n : ℕ) → IsBytes (replicate n 0)
replicate-IsBytes zero = tt
replicate-IsBytes (suc n) = (omega arith, replicate-IsBytes n)

get_or-replicate : (n i : ℕ) → ◌≡◌ {A = ℕ} (get_or (replicate n 0) i 0) 0
get_or-replicate zero i = refl
get_or-replicate (suc n) zero = refl
get_or-replicate (suc n) (suc i) = get_or-replicate n i

holds-replicate : (n i : ℕ) → holds (replicate n 0) i ≡ false
holds-replicate n i = rw (get_or-replicate n (i / 8)) (test-zero (i % 8))

slot-vlan : (s : TagSet) → IsVlans s → (u : ℕ) → IsVlan u → slot s u ≡ u - 1
slot-vlan s v u h = first_grid s.base s.interval v.from_1 v.one_by_one
  where
    first_grid :
        (base interval : ℕ)
        → base ≡ 1
        → interval ≡ 1
        → (u + 2 ^ 32 - base) % 2 ^ 32 / interval ≡ u - 1
    first_grid base interval hb hi = rw (hb, hi) (omega (arith, h))

has_tag-vlan :
    (s : TagSet) → IsVlans s → (u : ℕ) → IsVlan u → has_tag s u ≡ holds s.byte_array (u - 1)
unfolding has_tag
has_tag-vlan s v u h = ground (arith, slot-vlan s v u h, v.bits, h)

module _ (s t : TagSet) (v : IsVlans s) (w : IsVlans t) where
  vlans_grid : SameGrid s t
  vlans_grid = record {
    same_bits = ground (arith, v.bits, w.bits);
    same_base = ground (arith, v.from_1, w.from_1);
    same_interval = ground (arith, v.one_by_one, w.one_by_one);
  }

  same_length : length t.byte_array ≡ s.num_bytes
  same_length = ground (arith, v.bits, w.bits, v.valid.covers, w.valid.covers, w.valid.sized)

  same_member : (u : ℕ) → IsVlan u → holds t.byte_array (slot s u) ≡ has_tag t u
  same_member u h =
      subst (λ i. holds t.byte_array i ≡ has_tag t u) (sym (slot-vlan s v u h))
        (sym (has_tag-vlan t w u h))

  pub vlans-add :
      (r : TagSet) × (add_bitmask s t.byte_array max_vlan_num ≡ some r)
      × IsVlans r
      × (r.has_any_tag ≡ s.has_any_tag)
      × ((u : ℕ) → IsVlan u → has_tag r u ≡ (has_tag s u || has_tag t u))
  vlans-add =
      let (r, e, valid, grid, any, members) =
        has_tag-add_bitmask s v.valid t.byte_array w.valid.bytes same_length in
      (
        r,
        subst (λ n. add_bitmask s t.byte_array n ≡ some r) v.bits e,
        grid-IsVlans s r v valid grid,
        any,
        λ u h.
            let fits : slot s u < s.num_bits = omega (arith, slot-vlan s v u h, v.bits, h) in
            members u (λ same. omega (arith, same, h)) fits
            ∙ ap (λ b. has_tag s u || b) (same_member u h),
      )

  pub vlans-delete :
      (r : TagSet) × (delete_bitmask s t.byte_array max_vlan_num ≡ some r)
      × IsVlans r
      × (r.has_any_tag ≡ s.has_any_tag)
      × ((u : ℕ) → IsVlan u → has_tag r u ≡ (has_tag s u && not (has_tag t u)))
  vlans-delete =
      let (r, e, valid, grid, any, members) =
        has_tag-delete_bitmask s v.valid t.byte_array w.valid.bytes same_length in
      (
        r,
        subst (λ n. delete_bitmask s t.byte_array n ≡ some r) v.bits e,
        grid-IsVlans s r v valid grid,
        any,
        λ u h.
            let fits : slot s u < s.num_bits = omega (arith, slot-vlan s v u h, v.bits, h) in
            members u (λ same. omega (arith, same, h)) fits
            ∙ ap (λ b. has_tag s u && not b) (same_member u h),
      )

  intersect-SameGrid : (r : TagSet) → intersect s t ≡ some r → SameGrid r s
  unfolding intersect
  intersect-SameGrid r h = record {
    same_bits = ground (arith, h);
    same_base = ground (arith, h);
    same_interval = ground (arith, h);
  }

  pub vlans-intersect :
      (r : TagSet) × (intersect s t ≡ some r)
      × IsVlans r
      × ((u : ℕ) → IsVlan u → allows r u ≡ (allows s u && allows t u))
  vlans-intersect =
      let (r, e, (valid, members)) = allows-intersect s t v.valid w.valid vlans_grid in
      (
        r,
        e,
        grid-IsVlans s r v valid (intersect-SameGrid r e),
        λ u h. members u (λ same. omega (arith, same, h)),
      )

-- An emptied set of VLAN tags.
pub vlans-clear :
    (s : TagSet)
    → IsVlans s
    → IsVlans (clear s) × ((u : ℕ) → IsVlan u → has_tag (clear s) u ≡ false)
unfolding clear
vlans-clear s v =
    let v' : IsVlans (clear s) = record {
      valid = record {
        sized = length-replicate s.num_bytes 0;
        bytes = replicate-IsBytes s.num_bytes;
        covers = v.valid.covers;
        grid = v.valid.grid;
      };
      bits = v.bits;
      from_1 = v.from_1;
      one_by_one = v.one_by_one;
    } in
    (v', λ u h. has_tag-vlan (clear s) v' u h ∙ holds-replicate s.num_bytes (u - 1))

-- A new set of VLAN tags.
pub vlans-new :
    IsVlans (new max_vlan_num) × ((u : ℕ) → IsVlan u → has_tag (new max_vlan_num) u ≡ false)
unfolding new new_grid
vlans-new =
    let v : IsVlans (new max_vlan_num) = record {
      valid = record {
        sized = length-replicate {A = ℕ} 512 0;
        bytes = replicate-IsBytes 512;
        covers = omega arith;
        grid = omega arith;
      };
      bits = refl;
      from_1 = refl;
      one_by_one = refl;
    } in
    (v, λ u h. has_tag-vlan (new max_vlan_num) v u h ∙ holds-replicate 512 (u - 1))
