-- ===== src/Tests/TagSets.antt =====
-- `ConstraintTagSet` of src/common/utils.hh at concrete sets.
use mxtce_geni_scs.Base.{
  ℕ, ◌≤◌, ◌<◌, ◌≡◌, ◌≢◌, ◌↔◌, refl, true, false, ◌&&◌, ◌||◌, none, some, [], ◌∷◌, ◌==◌, arith, ◌*◌,
  ◌^◌,
}
use mxtce_geni_scs.TagSet.{
  TagSet, IsValid, any_tag, slot, add_tag, has_tag, intersect, join, new_grid,
}
use mxtce_geni_scs.TagSet.Byte.{test}
use mxtce_geni_scs.TagSet.Member.{has_tag-add_tag, add_tag_fault_iff, new_grid-IsValid}
use mxtce_geni_scs.TagSet.Combine.{allows-intersect, allows-join, join_any_erases, allows}
use mxtce_geni_scs.TagSet.Bitmasks.{SameGrid}
use mxtce_geni_scs.TagSet.Scan.{lowest_tag, random_tag}
use mxtce_geni_scs.TagSet.Whole.{lowest_tag-least, IsWhole}
use mxtce_geni_scs.TagSet.Random.{random_tag-IsPick, IsPick}

-- Tags 4 and 9, and tags 4 and 16, of 16.
abbrev first : TagSet
first = record {
  byte_array = 0x10 ∷ 0x80 ∷ [];
  num_bits = 16;
  num_bytes = 2;
  has_any_tag = false;
  base = 1;
  interval = 1;
}

abbrev second : TagSet
second = record first { byte_array = 0x10 ∷ 0x01 ∷ [] }

abbrev anything : TagSet
anything = record first { has_any_tag = true }

valid_first : IsValid first
valid_first = record {
  sized = refl;
  bytes = (omega arith, (omega arith, tt));
  covers = refl;
  grid = omega arith;
}

valid_second : IsValid second
valid_second = record {
  sized = refl;
  bytes = (omega arith, (omega arith, tt));
  covers = refl;
  grid = omega arith;
}

IsWhole-first : IsWhole first
IsWhole-first = record { IsValid_set = valid_first; filled = refl; named = omega arith }

same_sets : SameGrid first second
same_sets = record { same_bits = refl; same_base = refl; same_interval = refl }

has_four : has_tag first 4 ≡ true
unfolding has_tag test
has_four = refl

has_tag-add_tag_example :
    (s' : TagSet) × (add_tag first 5 ≡ some s')
    × IsValid s'
    × ((u : ℕ) → u ≢ any_tag → has_tag s' u ≡ (slot first 5 == slot first u || has_tag first u))
has_tag-add_tag_example = has_tag-add_tag first valid_first 5 (omega arith) (omega arith)

add_tag_fault_iff_example : (add_tag first 0 ≡ none) ↔ ((0 ≢ any_tag) × (8 * 2 ≤ slot first 0))
add_tag_fault_iff_example = add_tag_fault_iff first 0 valid_first

allows-intersect_example :
    (r : TagSet) × (intersect first second ≡ some r)
    × (IsValid r × ((u : ℕ) → u ≢ any_tag → allows r u ≡ (allows first u && allows second u)))
allows-intersect_example = allows-intersect first second valid_first valid_second same_sets

allows-join_example :
    (r : TagSet) × (join first second ≡ some r)
    × IsValid r
    × SameGrid r first
    × (r.has_any_tag ≡ false)
    × ((u : ℕ) → u ≢ any_tag → allows r u ≡ (allows first u || allows second u))
allows-join_example = allows-join first second valid_first valid_second same_sets refl

abbrev vlans : TagSet
vlans = new_grid 4096 1 1

join_any_erases_example :
    (r : TagSet) × (join vlans (record vlans { has_any_tag = true }) ≡ some r)
    × (r.has_any_tag ≡ true)
    × ((u : ℕ) → u ≢ any_tag → slot vlans u < 2040 → has_tag r u ≡ false)
unfolding new_grid
join_any_erases_example =
    join_any_erases vlans (record vlans { has_any_tag = true })
      (new_grid-IsValid 4096 1 1 (omega arith))
      (record { same_bits = refl; same_base = refl; same_interval = refl }) refl refl refl

lowest_tag-least_example :
    (has_tag first (lowest_tag first) ≡ true)
    × (lowest_tag first ≢ any_tag)
    × ((u : ℕ) → u ≢ any_tag → 1 ≤ u → u < 2 ^ 32 → has_tag first u ≡ true → lowest_tag first ≤ u)
lowest_tag-least_example = lowest_tag-least first IsWhole-first 4 (omega arith) has_four

random_tag-IsPick_example : IsPick first (random_tag first 3 12)
random_tag-IsPick_example = random_tag-IsPick first 3 12 4 IsWhole-first refl (omega arith) has_four
