-- ===== src/Shape.antt =====
-- What no command changes: whose session it is, the size of its tables, and which connections there
-- are. src/tnfs.h, `Session`.
use tnfsd.Base.{
  ℕ, List, [], ◌∷◌, ◌+◌, ◌≤◌, ◌≡◌, ◌∙◌, refl, arith, ltb, length, drop, take, length-append,
  length-drop, Bool-cases, inl, inr,
}
use tnfsd.Os.{Os, Result, ok, err}
use tnfsd.Tnfs.{Session, Header, TcpConnection, Io, Ctx, did}
use tnfsd.Send.{
  mark_dead, tnfs_mark_tcp_dead, check_sent, packet, transmit, wire_call, wire_result, tnfs_send,
  send_nosess, reply, tnfs_resend,
}
use tnfsd.Send.Laws.{length-packet}

-- The descriptors of the connections, 0 for a free slot.
abbrev pub fds : List TcpConnection → List ℕ
fds [] = []
fds (t ∷ ts) = t.cli_fd ∷ fds ts

abbrev pub conns : Io → List ℕ
conns io = fds io.tcpsocks

abbrev pub Shape : Type 0
Shape = ℕ × ℕ × ℕ × ℕ × ℕ × ℕ × List ℕ

unfoldable pub shape : Ctx → Shape
shape x = (
  (x.sess).sid,
  (x.sess).ipaddr,
  (x.sess).cli_fd,
  length (x.sess).fd,
  length (x.sess).atari_fd,
  length (x.sess).dhandles,
  conns x.io,
)

-- The message that is kept fits its buffer, MAXMSGSZ bytes.
abbrev pub Fits : Session → Type 0
Fits s = (length s.lastmsg ≡ 532) × (s.lastmsgsz ≤ 532)

-- What a handler keeps.
abbrev pub Keeps : Ctx → Ctx → Type 0
Keeps x y = (shape y ≡ shape x) × (Fits x.sess → Fits y.sess)

pub Keeps-trans : (x y z : Ctx) → Keeps x y → Keeps y z → Keeps x z
Keeps-trans x y z k l = (l.0 ∙ k.0, λ f. l.1 (k.1 f))

fds-mark_dead : (fd : ℕ) (ts : List TcpConnection) → fds (mark_dead fd ts) ≡ fds ts
unfolding mark_dead
fds-mark_dead fd [] = refl
fds-mark_dead fd (t ∷ ts) = ground (arith, fds-mark_dead fd ts)

conns-mark : (fd : ℕ) (io : Io) → conns (tnfs_mark_tcp_dead fd io) ≡ conns io
unfolding tnfs_mark_tcp_dead
conns-mark fd io = ground (arith, fds-mark_dead fd io.tcpsocks)

conns-check_sent :
    (r : Result ℕ) (size fd : ℕ) (io : Io) → conns (check_sent r size fd io) ≡ conns io
unfolding check_sent
conns-check_sent (ok n) size fd io = ground (arith, conns-mark fd io)
conns-check_sent (err e) size fd io = conns-mark fd io

module _ (os : Os) where
  pub conns-transmit :
      (fd ip port : ℕ) (bytes : List ℕ) (io : Io)
      → conns (transmit os fd ip port bytes io) ≡ conns io
  unfolding transmit
  conns-transmit fd ip port bytes io =
      let r = wire_result os io.calls fd ip port bytes in
      conns-check_sent r (length bytes) fd (did (wire_call fd ip port bytes) r io)

  pub conns-send_nosess : (hdr : Header) (io : Io) → conns (send_nosess os hdr io) ≡ conns io
  unfolding send_nosess
  conns-send_nosess hdr io = conns-transmit hdr.cli_fd hdr.ipaddr hdr.port (packet 0 hdr []) io

  shape-tnfs_send :
      (hdr : Header) (msg : List ℕ) (x : Ctx) → shape (tnfs_send os hdr msg x) ≡ shape x
  unfolding tnfs_send shape
  shape-tnfs_send hdr msg x =
      ground (arith, conns-transmit hdr.cli_fd hdr.ipaddr hdr.port (packet hdr.sid hdr msg) x.io)

  pub shape-reply :
      (hdr : Header) (status : ℕ) (msg : List ℕ) (x : Ctx)
      → shape (reply os hdr status msg x) ≡ shape x
  unfolding reply
  shape-reply hdr status msg x = shape-tnfs_send (record hdr { status = status }) msg x

  pub shape-tnfs_resend : (ip port fd : ℕ) (x : Ctx) → shape (tnfs_resend os ip port fd x) ≡ shape x
  unfolding tnfs_resend shape
  shape-tnfs_resend ip port fd x =
      ground (arith, conns-transmit fd ip port (take (x.sess).lastmsgsz (x.sess).lastmsg) x.io)

  Fits-tnfs_send :
      (hdr : Header) (msg : List ℕ) (x : Ctx) → Fits x.sess → Fits (tnfs_send os hdr msg x).sess
  unfolding tnfs_send
  Fits-tnfs_send hdr msg x f = elim (Bool-cases (ltb 532 (4 + 1 + length msg))) [
    | inl big ↦ rw big f
    | inr fits ↦
        let bytes = packet hdr.sid hdr msg in
        rw fits (
          grind (
            arith,
            length-append bytes (drop (length bytes) (x.sess).lastmsg),
            length-packet hdr.sid hdr msg,
            length-drop (length bytes) (x.sess).lastmsg,
          ),
          ground arith,
        )
  ]

  pub Fits-reply :
      (hdr : Header) (status : ℕ) (msg : List ℕ) (x : Ctx)
      → Fits x.sess
      → Fits (reply os hdr status msg x).sess
  unfolding reply
  Fits-reply hdr status msg x f = Fits-tnfs_send (record hdr { status = status }) msg x f

  pub Keeps-reply :
      (hdr : Header) (status : ℕ) (msg : List ℕ) (x : Ctx) → Keeps x (reply os hdr status msg x)
  Keeps-reply hdr status msg x = (shape-reply hdr status msg x, Fits-reply hdr status msg x)
