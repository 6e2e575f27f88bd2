-- ===== src/Server/Refusals.antt =====
-- src/datagram.c, `tnfs_decode`: the requests that are turned away before a session is looked at.
use tnfsd.Base.{
  ℕ, Bool, true, false, none, List, [], ◌∷◌, ◌==◌, ◌≡◌, ◌⊎◌, refl, inl, inr, if◌then◌else◌, get_or,
  arith,
}
use tnfsd.Os.{Os}
use tnfsd.Tnfs.{Config}
use tnfsd.Auth.{is_cmd_allowed}
use tnfsd.Endian.{tnfs16uint, uint16tnfs}
use tnfsd.Errortable.{tnfs_ebadsession, tnfs_eperm}
use tnfsd.Send.{packet, wire_call, send_nosess, tnfs_notpermitted, tnfs_invalidsession}
use tnfsd.Send.Laws.{calls-transmit}
use tnfsd.Sessions.{Server, tnfs_findsession_sid}
use tnfsd.Server.Decode.{Addr, read_header, tnfs_decode}

-- The five bytes that a refused request is answered with: no session, the request's sequence number
-- and command, and the status.
abbrev pub refusal : Bool → List ℕ → List ℕ
refusal allowed rxbuf =
    0
    ∷ 0
    ∷ get_or rxbuf 2 0
    ∷ get_or rxbuf 3 0
    ∷ (if allowed then tnfs_ebadsession else tnfs_eperm)
    ∷ []

module _ (os : Os) (conf : Config) where
  -- A request that a read-only server does not allow, and one but MOUNT for a session that there is
  -- not, change no session and run no command: all that is called for is one message, with the session
  -- 0 and the status EPERM or EBADSESSION, to where the request came from.
  pub tnfs_decode-refusal :
      (a : Addr) (cli_fd rxbytes : ℕ) (rxbuf : List ℕ) (srv : Server) (allowed : Bool)
      → is_cmd_allowed conf.read_only (get_or rxbuf 3 0) ≡ allowed
      → (allowed ≡ false)
        ⊎ (((get_or rxbuf 3 0 == 0) ≡ false)
            × (tnfs_findsession_sid (tnfs16uint rxbuf) srv.slist ≡ none))
      → ((tnfs_decode os conf a cli_fd rxbytes rxbuf srv).slist ≡ srv.slist)
        × ((tnfs_decode os conf a cli_fd rxbytes rxbuf srv).calls
            ≡ wire_call cli_fd a.ip a.port (refusal allowed rxbuf) ∷ srv.calls)
  unfolding tnfs_decode read_header tnfs_notpermitted tnfs_invalidsession send_nosess packet
      uint16tnfs
  tnfs_decode-refusal a cli_fd rxbytes rxbuf srv false e why =
      rw (e, tnfs_decode) (refl, calls-transmit os cli_fd a.ip a.port (refusal false rxbuf) srv.io)
  tnfs_decode-refusal a cli_fd rxbytes rxbuf srv true e (inl shut) = absurd (ground arith)
  tnfs_decode-refusal a cli_fd rxbytes rxbuf srv true e (inr (not_mount, unknown)) =
      rw (e, not_mount, unknown, tnfs_decode)
        (refl, calls-transmit os cli_fd a.ip a.port (refusal true rxbuf) srv.io)
