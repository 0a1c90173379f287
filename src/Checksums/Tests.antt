-- ===== src/Checksums/Tests.antt =====
-- The checksums on known numbers, and their theorems there.
use privy_gate.Common.{◌%◌, ◌↔◌, ◌+◌, ◌*◌, ◌≡◌, refl, true, false, ◌∷◌, ◌++◌, codes, arith}
use privy_gate.Checksums.{
  number, luhn_value, luhn_sum, passes_luhn, snils_sum, snils_expected, snils_checksum,
  weighted_sum, control_digit, inn_checksum, all_follow, is_sequential_digits, digits_of,
}
use privy_gate.Checksums.Luhn.{passes_luhn-replaced}
use privy_gate.Checksums.Control.{snils_checksum_iff}

program : Unit {0}
unfolding number luhn_value luhn_sum passes_luhn snils_sum snils_expected snils_checksum
    weighted_sum control_digit inn_checksum all_follow is_sequential_digits digits_of
program = tt

card : passes_luhn (codes "4111111111111111") ≡ true
unfolding program
card = refl

short : passes_luhn (codes "18") ≡ false
unfolding program
short = refl

snils : snils_checksum (digits_of (codes "112-233-445 95")) ≡ true
unfolding program
snils = refl

inn : inn_checksum (codes "7707083893") ≡ true
unfolding program
inn = refl

sequential : is_sequential_digits (codes "8901234") ≡ true
unfolding program
sequential = refl

passes_luhn-replaced_example : passes_luhn (codes "41111" ++ b'2' ∷ codes "1111111111") ≡ false
unfolding program
passes_luhn-replaced_example =
    passes_luhn-replaced (codes "41111") (codes "1111111111") b'1' b'2' (omega arith) (omega arith)
      (λ e. omega arith) refl

snils_checksum_iff_example :
    (snils_checksum (codes "11223344595") ≡ true)
    ↔ ((9 * 1 + 8 * 1 + 7 * 2 + 6 * 2 + 5 * 3 + 4 * 3 + 3 * 4 + 2 * 4 + 5) % 101 % 100 ≡ 10 * 9 + 5)
snils_checksum_iff_example = snils_checksum_iff 1 1 2 2 3 3 4 4 5 9 5
