-- ===== src/Path.antt =====
-- The paths of src/directory.c and src/tnfs_file.c: `get_root`, `normalize_path`, `validate_dir`,
-- `validate_path` and `tnfs_valid_filename`.
pub mod Components
pub mod Confinement
use tnfsd.Base.{
  ℕ, Bool, true, false, not, ◌&&◌, ◌||◌, Option, none, some, List, [], ◌∷◌, ◌++◌, ◌-◌, ◌==◌, ltb,
  if◌then◌else◌, take, strstr,
}
use tnfsd.Os.{Os, Call, Result, ok, err}
use tnfsd.Tnfs.{Config, Session, Buf, Io, did, last_byte, string_at, max_tnfspath, max_filepath}
use tnfsd.Strl.{strlcat}

-- `snprintf` with a format that makes `s`, into a buffer of `bufsz` bytes
abbrev pub snprintf : ℕ → List ℕ → List ℕ
snprintf bufsz s = take (bufsz - 1) s

-- the string that `get_root` prints
unfoldable pub root_of : Config → Session → List ℕ
root_of conf s = elim s.root [
  | none ↦ conf.root ++ (b'/' ∷ [])
  | some r ↦ conf.root ++ (b'/' ∷ (r ++ (b'/' ∷ [])))
]

unfoldable pub get_root : Config → Session → ℕ → List ℕ
get_root conf s bufsz = snprintf bufsz (root_of conf s)

-- the loop of `normalize_path`; the flag is `slash`
unfoldable pub squeeze : Bool → List ℕ → List ℕ
squeeze slash [] = []
squeeze slash (c ∷ cs) =
    if not (c == b'/')
    then c ∷ squeeze false cs
    else if not slash
    then b'/' ∷ squeeze true cs
    else squeeze true cs

-- `count` of the source is never raised, so the loop's bound is a test on the size alone.
unfoldable pub normalize_path : List ℕ → ℕ → List ℕ
unfolding squeeze
normalize_path oldbuf bufsz = if ltb 0 (bufsz - 1) then squeeze false oldbuf else []

abbrev pub dotdot : List ℕ
dotdot = b'.' ∷ b'.' ∷ []

abbrev pub dotdot_slash : List ℕ
dotdot_slash = b'.' ∷ b'.' ∷ b'/' ∷ []

-- The string is the request's from its byte `i` on; `none` is -1.
unfoldable pub tnfs_valid_filename : Config → Session → Buf → ℕ → Option (List ℕ)
unfolding get_root
tnfs_valid_filename conf s b i =
    if not (last_byte b == 0)
    then none
    else if strstr (string_at b i) dotdot
    then none
    else some (
        normalize_path (strlcat (get_root conf s max_filepath) (string_at b i) max_filepath)
          max_filepath)

module _ (os : Os) (conf : Config) where
  -- `validate_dir (s, "")`, with the calls it makes; true for 0
  unfoldable pub validate_dir : Session → Io → Bool × Io
  unfolding get_root
  validate_dir s io =
      let fullpath = get_root conf s max_tnfspath in
      if strstr fullpath dotdot_slash
      then (false, io)
      else (let p = normalize_path fullpath max_tnfspath in
          let r = os.stat io.calls p in
          (elim r [ ok st ↦ st.is_dir | err e ↦ false ], did (Call.stat p) r io))

  -- with ENABLE_CHROOT; the resolved path has to contain `realroot`
  unfoldable pub validate_path : List ℕ → Io → Bool × Io
  validate_path path io =
      let r = os.realpath io.calls path in
      (
        elim r [ ok valpath ↦ strstr valpath conf.realroot | err e ↦ false ],
        did (Call.realpath path) r io,
      )
