-- ===== src/Endian.antt =====
-- src/endian.c: integers in the little-endian order of the messages. A reader takes the bytes that
-- its pointer finds; a writer returns the bytes that it stores.
pub mod RoundTrip
use tnfsd.Base.{ℕ, List, [], ◌∷◌, ◌+◌, ◌*◌, ◌/◌, ◌%◌, ◌^◌, get_or}

unfoldable pub tnfs16uint : List ℕ → ℕ
tnfs16uint value = (get_or value 1 0 * 2 ^ 8 + get_or value 0 0) % 2 ^ 16

pub tnfs32uint : List ℕ → ℕ
tnfs32uint value =
    (get_or value 3 0 * 2 ^ 24 % 2 ^ 32
      + get_or value 2 0 * 2 ^ 16 % 2 ^ 32
      + get_or value 1 0 * 2 ^ 8 % 2 ^ 32
      + get_or value 0 0)
    % 2 ^ 32

unfoldable pub uint16tnfs : ℕ → List ℕ
uint16tnfs value = value % 256 ∷ value / 2 ^ 8 % 256 ∷ []

unfoldable pub uint32tnfs : ℕ → List ℕ
uint32tnfs value =
    value % 256 ∷ value / 2 ^ 8 % 256 ∷ value / 2 ^ 16 % 256 ∷ value / 2 ^ 24 % 256 ∷ []

unfoldable pub uint64tnfs : ℕ → List ℕ
uint64tnfs value =
    value % 256
    ∷ value / 2 ^ 8 % 256
    ∷ value / 2 ^ 16 % 256
    ∷ value / 2 ^ 24 % 256
    ∷ value / 2 ^ 32 % 256
    ∷ value / 2 ^ 40 % 256
    ∷ value / 2 ^ 48 % 256
    ∷ value / 2 ^ 56 % 256
    ∷ []
