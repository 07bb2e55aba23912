-- ===== src/Verify/Layers.antt =====
-- What `TPath::VerifyTEConstraints` of src/tedbManager/tewg.cc does with a request that is not for Ethernet VLANs.
use mxtce_geni_scs.Base.{◌≡◌}
use mxtce_geni_scs.TagSet.{TagSet, has_tag, new, clear, max_vlan_num}
use mxtce_geni_scs.Verify.Loop.{Check}

record Bare : Type 0 where
  head : TagSet
  next : TagSet
  head_trans : TagSet
  next_trans : TagSet

abbrev bare : Check → Bare
bare c = record {
  head = c.head_vtagset;
  next = c.next_vtagset;
  head_trans = c.head_vtagset_trans;
  next_trans = c.next_vtagset_trans;
}

-- No tags to follow, and none found.
abbrev no_tags : Bare
no_tags = record {
  head = clear (new max_vlan_num);
  next = new max_vlan_num;
  head_trans = clear (new max_vlan_num);
  next_trans = new max_vlan_num;
}

abbrev IsBare : Check → Type 0
IsBare c = bare c ≡ no_tags
