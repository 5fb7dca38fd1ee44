-- ===== src/TxnStore/WireBuf.antt =====
-- crates/conduit-core/src/txn_store/wire_buf.rs: a buffer of fixed capacity for one DNS message.
use dnsconduit.Common.{
  ℕ, zero, suc, ◌-◌, ◌≤◌, ◌<◌, ◌≡◌, refl, ap, Bool, List, [], ◌∷◌, ◌++◌, arith, ltb, nat_beq,
  if◌then◌else◌, Result, ok, err, length, replicate, length-append, length-replicate, Bool-cases,
  inl, inr, false,
}

abbrev pub dns_wire_buffer_size : ℕ
dns_wire_buffer_size = 4096

pub data WireBufferError : Type 0 where
  too_large : ℕ → ℕ → WireBufferError

pub record WireBuffer : Type 0 where
  pub buf : List ℕ
  pub len : ℕ

unfoldable pub take {ℓ} : {A : Type ℓ} → ℕ → List A → List A
take zero xs = []
take (suc n) [] = []
take (suc n) (x ∷ xs) = x ∷ take n xs

unfoldable pub drop {ℓ} : {A : Type ℓ} → ℕ → List A → List A
drop zero xs = xs
drop (suc n) [] = []
drop (suc n) (x ∷ xs) = drop n xs

unfoldable pub default : WireBuffer
default = record { buf = replicate dns_wire_buffer_size 0; len = 0 }

unfoldable pub clear : WireBuffer → WireBuffer
clear w = record w { len = 0 }

unfoldable pub is_empty : WireBuffer → Bool
is_empty w = nat_beq w.len 0

-- `&self.buf[..self.len]`
unfoldable pub as_slice : WireBuffer → List ℕ
as_slice w = take w.len w.buf

-- `copy_from_slice` overwrites the front of the buffer.
unfoldable pub set_from_slice : List ℕ → WireBuffer → WireBuffer × Result WireBufferError (Unit {0})
set_from_slice bytes w =
    if ltb dns_wire_buffer_size (length bytes)
    then (w, err (too_large (length bytes) dns_wire_buffer_size))
    else (record { buf = bytes ++ drop (length bytes) w.buf; len = length bytes }, ok tt)

-- The array has its full size, and the message lies within it.
pub record IsValid (w : WireBuffer) : Type 0 where
  pub sized : length w.buf ≡ dns_wire_buffer_size
  pub within : w.len ≤ dns_wire_buffer_size

take-append {ℓ} : {A : Type ℓ} (xs ys : List A) → take (length xs) (xs ++ ys) ≡ xs
unfolding take
take-append [] ys = refl
take-append (x ∷ xs) ys = ap (λ t. x ∷ t) (take-append xs ys)

length-drop {ℓ} : {A : Type ℓ} (n : ℕ) (xs : List A) → length (drop n xs) ≡ length xs - n
unfolding drop
length-drop zero xs = omega arith
length-drop (suc n) [] = omega arith
length-drop (suc n) (x ∷ xs) = omega (arith, length-drop n xs)

pub default-IsValid : IsValid default
unfolding default
default-IsValid = record {
  sized = length-replicate {A = ℕ} dns_wire_buffer_size 0;
  within = omega arith;
}

-- In a valid buffer, a message of at most 4096 bytes is stored and reads back whole, whatever it held; a
-- longer one is refused with its length and leaves the buffer alone. A valid buffer stays valid.
pub set_from_slice_lem :
    (bytes : List ℕ) (w : WireBuffer)
    → IsValid w
    → let (w', r) = set_from_slice bytes w in
      IsValid w'
      × (length bytes ≤ dns_wire_buffer_size → (r ≡ ok tt) × (as_slice w' ≡ bytes))
      × (dns_wire_buffer_size < length bytes
          → (r ≡ err (too_large (length bytes) dns_wire_buffer_size)) × (w' ≡ w))
unfolding set_from_slice as_slice
set_from_slice_lem bytes w v = elim (Bool-cases (ltb dns_wire_buffer_size (length bytes))) [
  | inl long ↦ rw long (v, (λ h. absurd (ground arith)), (λ h. (refl, refl)))
  | inr fits ↦ rw fits (
    record { sized = filled fits; within = ground arith },
    (λ h. (refl, take-append bytes (drop (length bytes) w.buf))),
    (λ h. absurd (ground arith)),
  )
]
  where
    filled :
        ltb dns_wire_buffer_size (length bytes) ≡ false
        → length (bytes ++ drop (length bytes) w.buf) ≡ dns_wire_buffer_size
    filled fits = ground (
      arith,
      length-append bytes (drop (length bytes) w.buf),
      length-drop (length bytes) w.buf,
      v.sized,
    )
