-- ===== src/Auth.antt =====
-- src/auth.c: what a read-only server lets a client do; and `tnfs_make_mode` of src/tnfs_file.c,
-- which turns the flags of an OPEN into those of `open`.
use tnfsd.Base.{
  ℕ, Bool, true, false, not, ◌||◌, List, [], ◌∷◌, ◌≡◌, ◌%◌, ◌==◌, bit, if◌then◌else◌, arith,
}
use tnfsd.Os.{OpenFlags, Access, rdonly, wronly, rdwr, opens_for_write}

abbrev pub rw_cmds : List ℕ
rw_cmds = 0x13 ∷ 0x14 ∷ 0x22 ∷ 0x26 ∷ 0x27 ∷ 0x28 ∷ []

unfoldable pub is_member : List ℕ → ℕ → Bool
is_member [] c = false
is_member (x ∷ xs) c = x == c || is_member xs c

-- The flag `read_only` of the source is the first argument.
unfoldable pub is_cmd_allowed : Bool → ℕ → Bool
unfolding is_member
is_cmd_allowed read_only cmd = if not read_only then true else not (is_member rw_cmds cmd)

-- `flags & RW_FLAGS`: TNFS_O_WRONLY 2, APPEND 8, CREAT 0x100, TRUNC 0x200, EXCL 0x400
unfoldable pub has_rw_flags : ℕ → Bool
has_rw_flags flags = bit flags 1 || bit flags 3 || bit flags 8 || bit flags 9 || bit flags 10

unfoldable pub is_open_allowed : Bool → ℕ → Bool
unfolding has_rw_flags
is_open_allowed read_only flags = if not read_only then true else not (has_rw_flags flags)

unfoldable pub make_access : ℕ → Access
make_access acc = if acc == 2 then wronly else if acc == 3 then rdwr else rdonly

unfoldable pub tnfs_make_mode : ℕ → OpenFlags
unfolding make_access
tnfs_make_mode flags = record {
  access = make_access (flags % 4);
  append = bit flags 3;
  creat = bit flags 8;
  excl = bit flags 10;
  trunc = bit flags 9;
}

-- On a read-only server an OPEN that `is_open_allowed` lets through opens the file with flags that
-- can neither write, append, create nor truncate.
pub opens_for_write-tnfs_make_mode :
    (flags : ℕ) → is_open_allowed true flags ≡ true → opens_for_write (tnfs_make_mode flags) ≡ false
unfolding is_open_allowed tnfs_make_mode opens_for_write
opens_for_write-tnfs_make_mode flags h = ground arith

-- What a read-only server refuses to open asks for a write, an append, a creation or a truncation,
-- or for an exclusive open.
is_open_allowed-false :
    (flags : ℕ)
    → is_open_allowed true flags ≡ false
    → (opens_for_write (tnfs_make_mode flags) || (tnfs_make_mode flags).excl) ≡ true
unfolding is_open_allowed tnfs_make_mode opens_for_write
is_open_allowed-false flags h = ground arith
