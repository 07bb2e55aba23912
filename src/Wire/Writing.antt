-- ===== src/Wire/Writing.antt =====
-- The buffer of src/api/encode_pri.cc: room is made before each field, and writes append to it.
use mxtce_geni_scs.Base.{
  ℕ, zero, suc, ◌+◌, ◌-◌, ◌*◌, ◌%◌, ◌≤◌, ◌<◌, ◌≡◌, refl, ap, sym, ◌∙◌, some, List, [], ◌∷◌, ◌++◌,
  arith, length, length-append, length-set, length-take, length-replicate, set, take, replicate,
  All, ltb, leb, Bool-cases, inl, inr,
}
use mathlib.Core.List.{append_assoc, append-nil}
use mxtce_geni_scs.Wire.{Buffer, put, put_all, expand_buff, buff_rem_check, create_buff}

abbrev pub IsBytes : List ℕ → Type 0
IsBytes = All (λ b. b < 256)

-- What has been written.
abbrev pub written : Buffer → List ℕ
written b = take b.offset b.buff

pub record IsValid (b : Buffer) : Type 0 where
  pub sized : length b.buff ≡ b.current_cap
  pub within : b.offset ≤ b.current_cap

pub create_buff-IsValid : IsValid create_buff
unfolding create_buff
create_buff-IsValid = record { sized = refl; within = omega arith }

-- `b'` is `b` with the bytes appended.
pub record Wrote (b : Buffer) (bytes : List ℕ) (b' : Buffer) : Type 0 where
  pub IsValid_after : IsValid b'
  pub appended : written b' ≡ written b ++ bytes
  pub same_cap : b'.current_cap ≡ b.current_cap
  pub moved : b'.offset ≡ b.offset + length bytes

take-set : (xs : List ℕ) (i v : ℕ) → i < length xs → take (suc i) (set xs i v) ≡ take i xs ++ v ∷ []
take-set [] i v h = absurd (omega arith)
take-set (x ∷ xs) zero v h = refl
take-set (x ∷ xs) (suc i) v h = ap (◌∷◌ x) (take-set xs i v (omega arith))

take-append : (n : ℕ) (xs ys : List ℕ) → n ≤ length xs → take n (take n xs ++ ys) ≡ take n xs
take-append zero xs ys h = refl
take-append (suc n) [] ys h = absurd (omega arith)
take-append (suc n) (x ∷ xs) ys h = ap (◌∷◌ x) (take-append n xs ys (omega arith))

put-Wrote :
    (byte : ℕ) (b : Buffer)
    → byte < 256
    → IsValid b
    → b.offset < b.current_cap
    → (b' : Buffer) × (put byte b ≡ some b') × Wrote b (byte ∷ []) b'
unfolding put
put-Wrote byte b small v room = (
  record b { buff = set b.buff b.offset (byte % 256); offset = b.offset + 1 },
  ground (arith, v.sized),
  let e : b.offset + 1 ≡ suc b.offset = omega arith in
      let f : byte % 256 ≡ byte = omega arith in
      record {
        IsValid_after = record { sized = rw length-set v.sized; within = omega arith };
        appended = rw (e, f) (take-set b.buff b.offset byte (omega (arith, v.sized)));
        same_cap = refl;
        moved = refl;
      },
)

pub put_all-Wrote :
    (bytes : List ℕ) (b : Buffer)
    → IsBytes bytes
    → IsValid b
    → b.offset + length bytes ≤ b.current_cap
    → (b' : Buffer) × (put_all bytes b ≡ some b') × Wrote b bytes b'
unfolding put_all
put_all-Wrote [] b small v room = (
  b,
  refl,
  record {
    IsValid_after = v;
    appended = sym (append-nil (written b));
    same_cap = refl;
    moved = omega arith;
  },
)
put_all-Wrote (byte ∷ bytes) b small v room =
    let (b₁, e₁, w₁) = put-Wrote byte b small.0 v (omega arith) in
    let (b₂, e₂, w₂) =
      put_all-Wrote bytes b₁ small.1 w₁.IsValid_after (omega (arith, w₁.moved, w₁.same_cap)) in
    (
      b₂,
      rw e₁ e₂,
      record {
        IsValid_after = w₂.IsValid_after;
        appended =
            w₂.appended
            ∙ ap (λ t. t ++ bytes) w₁.appended
            ∙ append_assoc (written b) (byte ∷ []) bytes;
        same_cap = w₂.same_cap ∙ w₁.same_cap;
        moved = omega (arith, w₁.moved, w₂.moved);
      },
    )

-- `buff_rem_check` keeps what was written, and leaves room for `req_size + 8` bytes.
pub record HasRoom (req_size : ℕ) (b b' : Buffer) : Type 0 where
  pub IsValid_after : IsValid b'
  pub kept : written b' ≡ written b
  pub room : b'.offset + req_size + 8 ≤ b'.current_cap

grown : (b : Buffer) (size : ℕ) → IsValid b → b.offset ≤ size → Buffer
grown b size v h = record b {
  buff = take b.offset b.buff ++ replicate (size - b.offset) 0;
  current_cap = size;
}

grown-HasRoom :
    (req_size : ℕ) (b : Buffer) (size : ℕ) (v : IsValid b) (h : b.offset ≤ size)
    → b.offset + req_size + 8 ≤ size
    → HasRoom req_size b (grown b size v h)
unfolding grown
grown-HasRoom req_size b size v h room = record {
  IsValid_after = record {
    sized = omega (
      arith,
      v.sized,
      v.within,
      length-append (take b.offset b.buff) (replicate (size - b.offset) 0),
      length-take b.offset b.buff,
      length-replicate {A = ℕ} (size - b.offset) 0,
    );
    within = h;
  };
  kept = take-append b.offset b.buff _ (omega (arith, v.sized, v.within));
  room = room;
}

-- Whatever the buffer, after the check it holds what it held, and has the room that was asked for.
pub buff_rem_check-HasRoom :
    (req_size : ℕ) (b : Buffer) → IsValid b → HasRoom req_size b (buff_rem_check req_size b)
unfolding buff_rem_check expand_buff grown
buff_rem_check-HasRoom req_size b v =
    let remain = b.current_cap - b.offset in
    let needed = req_size + 8 - remain in
    elim (Bool-cases (leb remain (req_size + 8))) [
      | inl short ↦ elim (Bool-cases (ltb needed b.current_cap)) [
        | inl less ↦
            rw (short, less)
              (grown-HasRoom req_size b (b.current_cap * 2) v (omega (arith, v.within))
                (ground (arith, v.within)))
        | inr more ↦
            rw (short, more)
              (grown-HasRoom req_size b (b.current_cap + needed) v (omega (arith, v.within))
                (ground (arith, v.within)))
      ]
      | inr enough ↦
          rw enough (record { IsValid_after = v; kept = refl; room = ground (arith, v.within) })
    ]
