-- ===== src/ByteString/Masking.antt =====
-- XOR with the same mask twice gives the string back, also where the mask is shorter.
use archive_aaf_sshsm.Common.{suc, ◌≡◌, refl, ap, ◌↔◌, true, [], ◌∷◌, arith, length}
use archive_aaf_sshsm.Common.Bits.{bit_xor_twice}
use archive_aaf_sshsm.ByteString.{Bytes, xor_assign, bytes_eq}

pub xor_assign_twice : (bs mask : Bytes) → xor_assign (xor_assign bs mask) mask ≡ bs
unfolding xor_assign
xor_assign_twice [] mask = refl
xor_assign_twice (b ∷ bs) [] = refl
xor_assign_twice (b ∷ bs) (r ∷ mask) = rw (bit_xor_twice b r, xor_assign_twice bs mask)

pub length-xor_assign : (bs mask : Bytes) → length (xor_assign bs mask) ≡ length bs
unfolding xor_assign
length-xor_assign [] mask = refl
length-xor_assign (b ∷ bs) [] = refl
length-xor_assign (b ∷ bs) (r ∷ mask) = ap suc (length-xor_assign bs mask)

pub bytes_eq_iff : (a b : Bytes) → (bytes_eq a b ≡ true) ↔ (a ≡ b)
unfolding bytes_eq
bytes_eq_iff [] [] = (λ h. refl, λ h. refl)
bytes_eq_iff [] (c ∷ cs) = (λ h. cc, λ h. cc)
bytes_eq_iff (b ∷ bs) [] = (λ h. cc, λ h. cc)
bytes_eq_iff (b ∷ bs) (c ∷ cs) =
    let ih = bytes_eq_iff bs cs in (λ h. ground (arith, ih.0), λ h. ground (arith, ih.1))
