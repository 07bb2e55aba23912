-- ===== src/Message.antt =====
-- `Message::Transmit` and `Message::Receive` of src/common/message.cc. A string is the list of its characters, none of them a NUL;
-- a socket is the bytes that it has still to give. Fields are written with the low byte first.
pub mod Bytes
pub mod RoundTrip
use mxtce_geni_scs.Base.{
  ℕ, zero, suc, ◌+◌, ◌-◌, ◌*◌, ◌/◌, ◌%◌, Bool, true, false, Option, none, some, List, [], ◌∷◌, ◌++◌,
  ltb, leb, ◌==◌, if◌then◌else◌, ◌>>=◌, length, replicate,
}

-- `TLV`, with its length that of its value.
pub record Tlv : Type 0 where
  pub tlv_type : ℕ
  pub value : List ℕ

pub record Message : Type 0 where
  pub msg_type : ℕ
  pub queue_name : List ℕ
  pub topic_name : List ℕ
  pub context_tag : List ℕ
  pub flag_urgent : Bool
  pub tlv_list : List Tlv

-- MAX_MSG_SIZE, TLV_HEAD_SIZE, the size of `MessageHeader` and of its names
abbrev pub max_msg_size : ℕ
max_msg_size = 4096

abbrev pub tlv_head_size : ℕ
tlv_head_size = 4

abbrev pub header_size : ℕ
header_size = 200

abbrev pub name_size : ℕ
name_size = 64

abbrev pub put_u16 : ℕ → List ℕ
put_u16 n = n % 256 ∷ n / 256 % 256 ∷ []

-- `strncpy`
unfoldable pub copy_name : ℕ → List ℕ → List ℕ
copy_name zero name = []
copy_name (suc n) [] = 0 ∷ copy_name n []
copy_name (suc n) (c ∷ name) = c ∷ copy_name n name

unfoldable pub put_tlvs : List Tlv → List ℕ
put_tlvs [] = []
put_tlvs (tlv ∷ tlvs) =
    put_u16 tlv.tlv_type ++ (put_u16 (length tlv.value) ++ (tlv.value ++ put_tlvs tlvs))

unfoldable pub size_tlvs : List Tlv → ℕ
size_tlvs [] = 0
size_tlvs (tlv ∷ tlvs) = tlv_head_size + length tlv.value + size_tlvs tlvs

abbrev pub put_flags : Bool → List ℕ
put_flags urgent = (if urgent then 1 else 0) ∷ 0 ∷ 0 ∷ 0 ∷ []

unfoldable pub put_header : Message → List ℕ
put_header msg =
    put_u16 msg.msg_type
    ++ (put_u16 (header_size + size_tlvs msg.tlv_list)
        ++ (copy_name name_size msg.queue_name
            ++ (copy_name name_size msg.topic_name
                ++ (copy_name name_size msg.context_tag ++ put_flags msg.flag_urgent))))

-- What is written. A message that is longer than the buffer is written past its end.
unfoldable pub transmit : Message → Option (List ℕ)
transmit msg =
    if leb (header_size + size_tlvs msg.tlv_list) max_msg_size
    then some (put_header msg ++ put_tlvs msg.tlv_list)
    else none

-- `readn`: exactly so many bytes, and those after them.
unfoldable pub read_bytes : ℕ → List ℕ → Option (List ℕ × List ℕ)
read_bytes zero bytes = some ([], bytes)
read_bytes (suc n) [] = none
read_bytes (suc n) (b ∷ bytes) = do pieces ← read_bytes n bytes; some (b ∷ pieces.0, pieces.1)

unfoldable pub get_u16 : List ℕ → Option (ℕ × List ℕ)
get_u16 (low ∷ high ∷ bytes) = some (low + 256 * high, bytes)
get_u16 bytes = none

-- A field read as a string goes on to the next NUL.
unfoldable pub read_name : List ℕ → List ℕ
read_name [] = []
read_name (c ∷ bytes) = let name = read_name bytes in if c == 0 then [] else c ∷ name

unfoldable pub get_urgent : List ℕ → Bool
get_urgent [] = false
get_urgent (b ∷ bytes) = b % 2 == 1

-- One `TLV`, which may reach past the end of the message into the rest of the buffer.
unfoldable pub get_tlv : List ℕ → Option (Tlv × List ℕ)
get_tlv bytes = do
  ty ← get_u16 bytes
  len ← get_u16 ty.1
  val ← read_bytes len.0 len.1
  some (record { tlv_type = ty.0; value = val.0 }, val.1)

-- The loop over the bytes that are left of the message; each round takes four of them at least.
unfoldable pub get_tlvs : ℕ → ℕ → List ℕ → Option (List Tlv)
get_tlvs zero left bytes = some []
get_tlvs (suc fuel) left bytes =
    if ltb tlv_head_size left
    then (do
      tlv ← get_tlv bytes
      tlvs ← get_tlvs fuel (left - (tlv_head_size + length tlv.0.value)) tlv.1
      some (tlv.0 ∷ tlvs))
    else some []

unfoldable pub read_body : ℕ → List ℕ → Option (List ℕ × List ℕ)
read_body msglen stream =
    if ltb header_size msglen then read_bytes (msglen - header_size) stream else some ([], stream)

-- The message from its header and from the buffer after it.
unfoldable pub get_message : ℕ → ℕ → List ℕ → List ℕ → Option Message
get_message ty msglen names buffer = do
  topic ← read_bytes name_size names
  context ← read_bytes name_size topic.1
  flags ← read_bytes name_size context.1
  tlvs ← get_tlvs msglen (msglen - header_size) buffer
  some (record {
    msg_type = ty;
    queue_name = read_name (names ++ buffer);
    topic_name = read_name (topic.1 ++ buffer);
    context_tag = read_name (context.1 ++ buffer);
    flag_urgent = get_urgent flags.1;
    tlv_list = tlvs;
  })

-- The buffer is all NUL at first. `none` is an exception.
unfoldable pub receive : List ℕ → Option (Message × List ℕ)
receive stream = do
  header ← read_bytes header_size stream
  ty ← get_u16 header.0
  msglen ← get_u16 ty.1
  body ← if ltb max_msg_size msglen.0 then none else read_body msglen.0 header.1
  msg ← get_message ty.0 msglen.0 msglen.1 (body.0 ++ replicate (max_msg_size - msglen.0) 0)
  some (msg, body.1)
