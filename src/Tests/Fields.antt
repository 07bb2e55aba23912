-- ===== src/Tests/Fields.antt =====
-- Fields of src/api/encode_pri.cc, and windows of src/resvManager/reservation.hh, at concrete values.
use mxtce_geni_scs.Base.{ℕ, ◌≡◌, refl, some, List, [], ◌∷◌, arith}
use mxtce_geni_scs.Wire.{create_buff, encode_string, encode_integer, encode_long}
use mxtce_geni_scs.Wire.Decode.{decode_str, decode_int, decode_long}
use mxtce_geni_scs.Wire.Writing.{create_buff-IsValid}
use mxtce_geni_scs.Wire.RoundTrip.{
  RoundTrips, encode_string-RoundTrips, encode_integer-RoundTrips, encode_long-RoundTrips,
}
use mxtce_geni_scs.Schedule.{Schedule, new_between}
use mxtce_geni_scs.Schedule.Laws.{IsValid}

encode_string-RoundTrips_example :
    RoundTrips decode_str 7
      (104 ∷ 105 ∷ [])
      create_buff
      (encode_string 7 (104 ∷ 105 ∷ []) create_buff)
encode_string-RoundTrips_example =
    encode_string-RoundTrips 7 (omega arith) create_buff create_buff-IsValid (104 ∷ 105 ∷ [])
      (omega arith, (omega arith, tt)) (omega arith)

encode_integer-RoundTrips_example :
    RoundTrips decode_int 7 0xFFFFFF80 create_buff (encode_integer 7 0xFFFFFF80 create_buff)
encode_integer-RoundTrips_example =
    encode_integer-RoundTrips 7 (omega arith) create_buff create_buff-IsValid 0xFFFFFF80
      (omega arith)

encode_long-RoundTrips_example :
    RoundTrips decode_long 7 10000000000 create_buff (encode_long 7 10000000000 create_buff)
encode_long-RoundTrips_example =
    encode_long-RoundTrips 7 (omega arith) create_buff create_buff-IsValid 10000000000 (omega arith)

abbrev four_bytes : List ℕ
four_bytes = 0 ∷ 0 ∷ 128 ∷ 63 ∷ []

abbrev eight_bytes : List ℕ
eight_bytes = 0 ∷ 0 ∷ 0 ∷ 0 ∷ four_bytes

abbrev morning : Schedule
morning = record { start_time = 100; end_time = 200; duration = 100 }

abbrev midday : Schedule
midday = record { start_time = 150; end_time = 250; duration = 60 }

valid_morning : IsValid morning
valid_morning = record { lasts = omega arith; fits = omega arith }

valid_midday : IsValid midday
valid_midday = record { lasts = omega arith; fits = omega arith }

made_between : new_between 100 200 ≡ some morning
unfolding new_between
made_between = refl
