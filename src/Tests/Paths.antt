-- ===== src/Tests/Paths.antt =====
-- `VerifyLoopFree` and the checks of specifications of src/tedbManager/tewg.cc at concrete paths and links.
use mxtce_geni_scs.Base.{ℕ, ◌≡◌, ◌↔◌, true, false, Option, none, some, List, [], ◌∷◌}
use mxtce_geni_scs.Delta.{Iscd, psc, lsc_type}
use mxtce_geni_scs.Path.{Tspec, verify_loop_free, is_available_for_tspec}
use mxtce_geni_scs.Path.Loops.{Revisits, verify_loop_free_iff}
use mxtce_geni_scs.Path.Specs.{AnyServes, is_available_for_tspec_iff}

abbrev looping : List (Option ℕ)
looping = some 1 ∷ some 1 ∷ none ∷ some 2 ∷ some 1 ∷ []

verify_loop_free_iff_example : (verify_loop_free looping ≡ false) ↔ Revisits looping
verify_loop_free_iff_example = verify_loop_free_iff looping

abbrev packet_wanted : Tspec
packet_wanted = record { sw_type = 1; enc_type = 1; bandwidth = 40 }

abbrev wave_wanted : Tspec
wave_wanted = record { sw_type = lsc_type; enc_type = 8; bandwidth = 40 }

abbrev descriptors : List Iscd
descriptors =
    (record { switching_type = lsc_type; encoding_type = 8; capacity = 10; layer = psc 0 })
    ∷ (record { switching_type = 1; encoding_type = 1; capacity = 100; layer = psc 1500 })
    ∷ []

is_available_for_tspec_iff_example :
    (is_available_for_tspec wave_wanted descriptors ≡ true) ↔ AnyServes wave_wanted descriptors
is_available_for_tspec_iff_example = is_available_for_tspec_iff wave_wanted descriptors
