-- ===== src/Endian/RoundTrip.antt =====
-- src/endian.c: what is written is read back, whatever follows it in the buffer.
use tnfsd.Base.{ℕ, List, [], ◌∷◌, ◌++◌, ◌≡◌, ◌<◌, ◌+◌, ◌*◌, ◌^◌, arith}
use tnfsd.Endian.{tnfs16uint, tnfs32uint, uint16tnfs, uint32tnfs, uint64tnfs}

-- Reading a 16-bit value back from the bytes written, with anything behind them, returns it.
tnfs16uint-uint16tnfs : (v : ℕ) (rest : List ℕ) → v < 2 ^ 16 → tnfs16uint (uint16tnfs v ++ rest) ≡ v
unfolding tnfs16uint uint16tnfs
tnfs16uint-uint16tnfs v rest h = omega arith

-- Reading a 32-bit value back from the bytes written, with anything behind them, returns it.
pub tnfs32uint-uint32tnfs :
    (v : ℕ) (rest : List ℕ) → v < 2 ^ 32 → tnfs32uint (uint32tnfs v ++ rest) ≡ v
unfolding tnfs32uint uint32tnfs
tnfs32uint-uint32tnfs v rest h = omega arith

-- Two bytes written back from the value read are the same bytes: the reader loses nothing.
pub uint16tnfs-tnfs16uint :
    (a b : ℕ) → a < 256 → b < 256 → uint16tnfs (tnfs16uint (a ∷ b ∷ [])) ≡ a ∷ b ∷ []
unfolding tnfs16uint uint16tnfs
uint16tnfs-tnfs16uint a b ha hb = ground arith

-- The eight bytes of a 64-bit value are those of its two halves, the low half first.
pub uint64tnfs-halves :
    (lo hi : ℕ)
    → lo < 2 ^ 32
    → hi < 2 ^ 32
    → uint64tnfs (lo + hi * 2 ^ 32) ≡ uint32tnfs lo ++ uint32tnfs hi
unfolding uint64tnfs uint32tnfs
uint64tnfs-halves lo hi hl hh = ground arith
