-- ===== src/Server/Tables.antt =====
-- src/datagram.c: the tables of commands.
use tnfsd.Base.{ℕ, Option, none, List, [], ◌∷◌, ◌*◌, ◌/◌, ◌%◌, ◌==◌, if◌then◌else◌, get_elem?}
use tnfsd.Os.{Os}
use tnfsd.Tnfs.{Config, Header, Buf, Ctx}
use tnfsd.File.Open.{tnfs_open, tnfs_open_deprecated}
use tnfsd.File.Transfer.{tnfs_read, tnfs_write, tnfs_lseek, tnfs_close}
use tnfsd.File.Names.{tnfs_stat, tnfs_unlink, tnfs_chmod, tnfs_rename}
use tnfsd.File.Device.{tnfs_size, tnfs_free}
use tnfsd.Dir.Commands.{
  tnfs_opendir, tnfs_readdir, tnfs_closedir, tnfs_mkdir, tnfs_rmdir, tnfs_telldir, tnfs_seekdir,
  tnfs_opendirx,
}
use tnfsd.Dir.Listing.{tnfs_readdirx}

-- `tnfs_cmdfunc`
abbrev pub CmdFunc : Type 0
CmdFunc = Buf → Ctx → Ctx

abbrev pub class_session : ℕ
class_session = 0x00

abbrev pub class_directory : ℕ
class_directory = 0x10

abbrev pub class_file : ℕ
class_file = 0x20

abbrev pub class_device : ℕ
class_device = 0x30

-- `cmd & 0xF0` and `cmd & 0x0F`
abbrev pub cmd_class : ℕ → ℕ
cmd_class cmd = cmd % 256 / 16 * 16

abbrev pub cmd_index : ℕ → ℕ
cmd_index cmd = cmd % 16

module _ (os : Os) (conf : Config) (hdr : Header) where
  abbrev pub dircmd : List CmdFunc
  dircmd =
      tnfs_opendir os conf hdr
      ∷ tnfs_readdir os conf hdr
      ∷ tnfs_closedir os conf hdr
      ∷ tnfs_mkdir os conf hdr
      ∷ tnfs_rmdir os conf hdr
      ∷ tnfs_telldir os conf hdr
      ∷ tnfs_seekdir os conf hdr
      ∷ tnfs_opendirx os conf hdr
      ∷ tnfs_readdirx os conf hdr
      ∷ []

  abbrev pub filecmd : List CmdFunc
  filecmd =
      tnfs_open_deprecated os conf hdr
      ∷ tnfs_read os conf hdr
      ∷ tnfs_write os conf hdr
      ∷ tnfs_close os conf hdr
      ∷ tnfs_stat os conf hdr
      ∷ tnfs_lseek os conf hdr
      ∷ tnfs_unlink os conf hdr
      ∷ tnfs_chmod os conf hdr
      ∷ tnfs_rename os conf hdr
      ∷ tnfs_open os conf hdr
      ∷ []

  abbrev pub devcmd : List CmdFunc
  devcmd =
      tnfs_size os conf hdr
      ∷ tnfs_free os conf hdr
      ∷ tnfs_size os conf hdr
      ∷ tnfs_free os conf hdr
      ∷ []

  -- The function of a directory, file or device command, if there is one.
  unfoldable pub cmdfunc : ℕ → Option CmdFunc
  cmdfunc cmd =
      if cmd_class cmd == class_directory
      then get_elem? dircmd (cmd_index cmd)
      else if cmd_class cmd == class_file
      then get_elem? filecmd (cmd_index cmd)
      else if cmd_class cmd == class_device
      then get_elem? devcmd (cmd_index cmd)
      else none
