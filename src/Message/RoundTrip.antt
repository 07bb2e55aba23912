-- ===== src/Message/RoundTrip.antt =====
-- A message of src/common/message.cc that is transmitted is received.
use mathlib.Core.List.{append_assoc}
use mathlib.Core.Path.{subst}
use mxtce_geni_scs.Base.{
  ℕ, ◌+◌, ◌-◌, ◌<◌, ◌≤◌, ◌≡◌, refl, ap, ◌∙◌, true, false, some, List, [], ◌∷◌, ◌++◌, ltb, leb,
  arith, length, length-append, All, replicate,
}
use mxtce_geni_scs.Message.{
  Message, Tlv, put_u16, copy_name, put_tlvs, size_tlvs, put_flags, put_header, transmit, receive,
  read_bytes, get_u16, read_name, get_message, read_body,
}
use mxtce_geni_scs.Message.Bytes.{
  get_u16-put_u16, read_bytes-length, length-copy_name, IsName, read_name-copy_name,
  get_urgent-put_flags, IsFit, IsTail, kept_tlvs, kept_tlvs-tail, kept_tlvs-append, length-put_tlvs,
  get_tlvs-put_tlvs,
}

-- A message that fits its header and the buffer.
pub record IsSendable (msg : Message) : Type 0 where
  pub typed : msg.msg_type < 65536
  pub queue : IsName msg.queue_name
  pub topic : IsName msg.topic_name
  pub context : IsName msg.context_tag
  pub fits : All IsFit msg.tlv_list
  pub short : 200 + size_tlvs msg.tlv_list ≤ 4096

read_bytes-name :
    (name bytes : List ℕ)
    → read_bytes 64 (copy_name 64 name ++ bytes) ≡ some (copy_name 64 name, bytes)
read_bytes-name name bytes =
    subst (λ n. read_bytes n (copy_name 64 name ++ bytes) ≡ some (copy_name 64 name, bytes))
      (length-copy_name 64 name) (read_bytes-length (copy_name 64 name) bytes)

read_body-put_tlvs :
    (tlvs : List Tlv)
    → (more : List ℕ)
    → read_body (200 + size_tlvs tlvs) (put_tlvs tlvs ++ more) ≡ some (put_tlvs tlvs, more)
unfolding read_body
read_body-put_tlvs [] more = unfold size_tlvs in unfold put_tlvs in refl
read_body-put_tlvs (tlv ∷ tlvs) more =
    let long : ltb 200 (200 + size_tlvs (tlv ∷ tlvs)) ≡ true = unfold size_tlvs in ground arith in
    let left : 200 + size_tlvs (tlv ∷ tlvs) - 200 ≡ length (put_tlvs (tlv ∷ tlvs)) =
      omega (arith, length-put_tlvs (tlv ∷ tlvs)) in
    rw long (rw left (read_bytes-length (put_tlvs (tlv ∷ tlvs)) more))

module _ (msg : Message) (is : IsSendable msg) where
  abbrev tail_fields : List ℕ
  tail_fields = copy_name 64 msg.context_tag ++ put_flags msg.flag_urgent

  abbrev names : List ℕ
  names = copy_name 64 msg.queue_name ++ (copy_name 64 msg.topic_name ++ tail_fields)

  abbrev msglen : ℕ
  msglen = 200 + size_tlvs msg.tlv_list

  abbrev received : Message
  received = record msg { tlv_list = kept_tlvs msg.tlv_list }

  length-put_header : length (put_header msg) ≡ 200
  unfolding put_header
  length-put_header = omega (
    arith,
    length-append (copy_name 64 msg.queue_name) (copy_name 64 msg.topic_name ++ tail_fields),
    length-append (copy_name 64 msg.topic_name) tail_fields,
    length-append (copy_name 64 msg.context_tag) (put_flags msg.flag_urgent),
    length-copy_name 64 msg.queue_name,
    length-copy_name 64 msg.topic_name,
    length-copy_name 64 msg.context_tag,
  )

  read_name-field :
      (name : List ℕ)
      → IsName name
      → (rest buffer : List ℕ) → read_name ((copy_name 64 name ++ rest) ++ buffer) ≡ name
  read_name-field name (fits, visible) rest buffer =
      ap read_name (append_assoc (copy_name 64 name) rest buffer)
      ∙ read_name-copy_name 64 name fits visible (rest ++ buffer)

  get_message-put :
      (bytes : List ℕ)
      → get_message msg.msg_type msglen names (put_tlvs msg.tlv_list ++ bytes) ≡ some received
  unfolding get_message
  get_message-put bytes =
      let buffer = put_tlvs msg.tlv_list ++ bytes in
      let left : msglen - 200 ≡ size_tlvs msg.tlv_list = omega arith in
      rw (read_bytes-name msg.queue_name (copy_name 64 msg.topic_name ++ tail_fields)) (
        rw (read_bytes-name msg.topic_name tail_fields) (
          rw (read_bytes-name msg.context_tag (put_flags msg.flag_urgent)) (
            rw left (
              rw (get_tlvs-put_tlvs msglen msg.tlv_list is.fits (omega arith) bytes) (
                rw
                  (read_name-field msg.queue_name is.queue
                    (copy_name 64 msg.topic_name ++ tail_fields) buffer)
                  (rw (read_name-field msg.topic_name is.topic tail_fields buffer) (
                    rw
                      (read_name-field msg.context_tag is.context (put_flags msg.flag_urgent)
                        buffer)
                      (rw (get_urgent-put_flags msg.flag_urgent) refl))))))))

  receive-put :
      (more : List ℕ)
      → receive (put_header msg ++ (put_tlvs msg.tlv_list ++ more)) ≡ some (received, more)
  unfolding receive
  receive-put more =
      let header : read_bytes 200 (put_header msg ++ (put_tlvs msg.tlv_list ++ more))
          ≡ some (put_header msg, put_tlvs msg.tlv_list ++ more) =
        subst
          (λ n.
            read_bytes n (put_header msg ++ (put_tlvs msg.tlv_list ++ more))
            ≡ some (put_header msg, put_tlvs msg.tlv_list ++ more))
          length-put_header (read_bytes-length (put_header msg) (put_tlvs msg.tlv_list ++ more)) in
      let typed : get_u16 (put_header msg) ≡ some (msg.msg_type, put_u16 msglen ++ names) =
        unfold put_header in get_u16-put_u16 msg.msg_type is.typed (put_u16 msglen ++ names) in
      let sized : get_u16 (put_u16 msglen ++ names) ≡ some (msglen, names) =
        get_u16-put_u16 msglen (omega (arith, is.short)) names in
      let short : ltb 4096 msglen ≡ false = ground (arith, is.short) in
      rw header (
        rw typed (
          rw sized (
            rw short (
              rw (read_body-put_tlvs msg.tlv_list more)
                (rw (get_message-put (replicate (4096 - msglen) 0)) refl)))))

  receive-transmit_kept :
      (more : List ℕ)
      → (bytes : List ℕ) × (transmit msg ≡ some bytes)
        × (receive (bytes ++ more) ≡ some (received, more))
  unfolding transmit
  receive-transmit_kept more =
      let fits : leb msglen 4096 ≡ true = ground (arith, is.short) in
      (
        put_header msg ++ put_tlvs msg.tlv_list,
        rw fits refl,
        ap receive (append_assoc (put_header msg) (put_tlvs msg.tlv_list) more) ∙ receive-put more,
      )

  -- A message is received as it was transmitted, and what follows it on the socket is left, when its type and those of its TLVs fit
  -- in 16 bits, its names have fewer than 64 characters and no NUL, the last TLV has a value and the whole fits in the buffer.
  pub receive-transmit :
      IsTail msg.tlv_list
      → (more : List ℕ)
      → (bytes : List ℕ) × (transmit msg ≡ some bytes)
        × (receive (bytes ++ more) ≡ some (msg, more))
  receive-transmit tail more =
      let (bytes, sent, got) = receive-transmit_kept more in
      (
        bytes,
        sent,
        got
            ∙ ap (λ tlvs. some (record msg { tlv_list = tlvs }, more))
                (kept_tlvs-tail msg.tlv_list tail),
      )

  -- Of a message whose last TLV has no value, that TLV is lost on the way, when its type and those of its TLVs fit in 16 bits, its
  -- names have fewer than 64 characters and no NUL and the whole fits in the buffer.
  pub receive-transmit_lost :
      (front : List Tlv)
      → (last : Tlv) → last.value ≡ []
      → msg.tlv_list ≡ front ++ last ∷ []
      → (more : List ℕ)
      → (bytes : List ℕ) × (transmit msg ≡ some bytes)
        × (receive (bytes ++ more) ≡ some (record msg { tlv_list = front }, more))
  receive-transmit_lost front last no_value ends more =
      let (bytes, sent, got) = receive-transmit_kept more in
      let kept : kept_tlvs msg.tlv_list ≡ front =
        ap kept_tlvs ends ∙ kept_tlvs-append front last no_value in
      (bytes, sent, got ∙ ap (λ tlvs. some (record msg { tlv_list = tlvs }, more)) kept)
