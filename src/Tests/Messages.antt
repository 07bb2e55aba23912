-- ===== src/Tests/Messages.antt =====
-- Messages of src/common/message.cc that are transmitted and received.
use mxtce_geni_scs.Base.{ℕ, ◌≡◌, refl, true, some, List, [], ◌∷◌, ◌++◌, arith}
use mxtce_geni_scs.Message.{Message, Tlv, transmit, receive, size_tlvs}
use mxtce_geni_scs.Message.Bytes.{IsTail}
use mxtce_geni_scs.Message.RoundTrip.{IsSendable, receive-transmit, receive-transmit_lost}

abbrev payload : Tlv
payload = record { tlv_type = 1; value = 7 ∷ 8 ∷ [] }

abbrev void : Tlv
void = record { tlv_type = 2; value = [] }

abbrev letter : List Tlv → Message
letter tlvs = record {
  msg_type = 1;
  queue_name = 65 ∷ 66 ∷ [];
  topic_name = 67 ∷ [];
  context_tag = [];
  flag_urgent = true;
  tlv_list = tlvs;
}

letter-IsSendable : IsSendable (letter (payload ∷ []))
unfolding size_tlvs
letter-IsSendable = record {
  typed = omega arith;
  queue = (omega arith, ((λ h. ground (arith, h)), ((λ h. ground (arith, h)), tt)));
  topic = (omega arith, ((λ h. ground (arith, h)), tt));
  context = (omega arith, tt);
  fits = ((omega arith, omega arith), tt);
  short = omega arith;
}

with_void-IsSendable : IsSendable (letter (payload ∷ void ∷ []))
unfolding size_tlvs
with_void-IsSendable = record {
  typed = omega arith;
  queue = (omega arith, ((λ h. ground (arith, h)), ((λ h. ground (arith, h)), tt)));
  topic = (omega arith, ((λ h. ground (arith, h)), tt));
  context = (omega arith, tt);
  fits = ((omega arith, omega arith), ((omega arith, omega arith), tt));
  short = omega arith;
}

payload-IsTail : IsTail (payload ∷ [])
unfolding IsTail
payload-IsTail = omega arith

receive-transmit_example :
    (bytes : List ℕ) × (transmit (letter (payload ∷ [])) ≡ some bytes)
    × (receive (bytes ++ 9 ∷ []) ≡ some (letter (payload ∷ []), 9 ∷ []))
receive-transmit_example =
    receive-transmit (letter (payload ∷ [])) letter-IsSendable payload-IsTail (9 ∷ [])

receive-transmit_lost_example :
    (bytes : List ℕ) × (transmit (letter (payload ∷ void ∷ [])) ≡ some bytes)
    × (receive (bytes ++ 9 ∷ []) ≡ some (letter (payload ∷ []), 9 ∷ []))
receive-transmit_lost_example =
    receive-transmit_lost (letter (payload ∷ void ∷ [])) with_void-IsSendable (payload ∷ []) void
      refl refl (9 ∷ [])
