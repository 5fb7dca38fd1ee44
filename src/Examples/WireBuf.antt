-- ===== src/Examples/WireBuf.antt =====
-- A message of three bytes in a wire buffer.
use dnsconduit.Common.{ℕ, ◌≡◌, ◌≤◌, ◌<◌, List, [], ◌∷◌, ok, err, length}
use dnsconduit.TxnStore.WireBuf.{
  default, set_from_slice, as_slice, dns_wire_buffer_size, too_large, IsValid, default-IsValid,
  set_from_slice_lem,
}

abbrev message : List ℕ
message = 7 ∷ 8 ∷ 9 ∷ []

set_from_slice_lem_example :
    let (w, r) = set_from_slice message default in
    IsValid w
    × (length message ≤ dns_wire_buffer_size → (r ≡ ok tt) × (as_slice w ≡ message))
    × (dns_wire_buffer_size < length message
        → (r ≡ err (too_large (length message) dns_wire_buffer_size)) × (w ≡ default))
set_from_slice_lem_example = set_from_slice_lem message default default-IsValid
