-- ===== src/Send/Laws.antt =====
-- src/datagram.c: what a reply does to the history of calls and to the session.
use tnfsd.Base.{
  All, ℕ, suc, List, [], ◌∷◌, ◌++◌, ◌+◌, ◌≤◌, ◌≡◌, ◌∙◌, ap₂, inl, inr, arith, ltb, length, take,
  take-append, Bool-cases,
}
use tnfsd.Os.{Os, Call, HoldsOfReads, Result, ok, err, sends, is_mutating}
use tnfsd.Tnfs.{Header, Io, Ctx, did}
use tnfsd.Endian.{uint16tnfs}
use tnfsd.Send.{
  tnfs_mark_tcp_dead, check_sent, packet, wire_call, wire_result, transmit, tnfs_send, send_nosess,
  reply, tnfs_resend,
}

pub length-packet :
    (sid : ℕ) (hdr : Header) (msg : List ℕ) → length (packet sid hdr msg) ≡ length msg + 5
unfolding packet uint16tnfs
length-packet sid hdr msg = omega arith

take_self : (xs ys : List ℕ) (n : ℕ) → n ≡ length xs → take n (xs ++ ys) ≡ xs
take_self xs ys n e = rw e (take-append xs ys)

calls-check_sent :
    (r : Result ℕ) (size cli_fd : ℕ) (io : Io) → (check_sent r size cli_fd io).calls ≡ io.calls
unfolding check_sent tnfs_mark_tcp_dead
calls-check_sent (ok n) size cli_fd io = ground arith
calls-check_sent (err e) size cli_fd io = ground arith

module _ (os : Os) where
  pub calls-transmit :
      (cli_fd ip port : ℕ) (bytes : List ℕ) (io : Io)
      → (transmit os cli_fd ip port bytes io).calls ≡ wire_call cli_fd ip port bytes ∷ io.calls
  unfolding transmit
  calls-transmit cli_fd ip port bytes io =
      let r = wire_result os io.calls cli_fd ip port bytes in
      calls-check_sent r (length bytes) cli_fd (did (wire_call cli_fd ip port bytes) r io)

  -- A message that fits is sent, and is the latest call.
  pub calls-tnfs_send :
      (hdr : Header) (msg : List ℕ) (x : Ctx)
      → length msg ≤ 527
      → (tnfs_send os hdr msg x).calls
        ≡ wire_call hdr.cli_fd hdr.ipaddr hdr.port (packet hdr.sid hdr msg) ∷ x.calls
  unfolding tnfs_send
  calls-tnfs_send hdr msg x h =
      ground (arith, calls-transmit hdr.cli_fd hdr.ipaddr hdr.port (packet hdr.sid hdr msg) x.io)

  sends-transmit :
      (cli_fd ip port : ℕ) (bytes : List ℕ) (io : Io)
      → sends (transmit os cli_fd ip port bytes io).calls ≡ suc (sends io.calls)
  unfolding sends
  sends-transmit cli_fd ip port bytes io = ground (arith, calls-transmit cli_fd ip port bytes io)

  pub sends-tnfs_send :
      (hdr : Header) (msg : List ℕ) (x : Ctx)
      → length msg ≤ 527
      → sends (tnfs_send os hdr msg x).calls ≡ suc (sends x.calls)
  unfolding tnfs_send
  sends-tnfs_send hdr msg x h =
      ground (arith, sends-transmit hdr.cli_fd hdr.ipaddr hdr.port (packet hdr.sid hdr msg) x.io)

  pub sends-reply :
      (hdr : Header) (status : ℕ) (msg : List ℕ) (x : Ctx)
      → length msg ≤ 527
      → sends (reply os hdr status msg x).calls ≡ suc (sends x.calls)
  unfolding reply
  sends-reply hdr status msg x h = sends-tnfs_send (record hdr { status = status }) msg x h

  pub sends-send_nosess :
      (hdr : Header) (io : Io) → sends (send_nosess os hdr io).calls ≡ suc (sends io.calls)
  unfolding send_nosess
  sends-send_nosess hdr io = sends-transmit hdr.cli_fd hdr.ipaddr hdr.port (packet 0 hdr []) io

  module _ (P : Call → Type 0) (reads : HoldsOfReads P) where
    pub All-transmit :
        (cli_fd ip port : ℕ) (bytes : List ℕ) (io : Io)
        → All P io.calls
        → All P (transmit os cli_fd ip port bytes io).calls
    unfolding is_mutating
    All-transmit cli_fd ip port bytes io h =
        rw (calls-transmit cli_fd ip port bytes io) (reads _ (ground arith), h)

    All-tnfs_send :
        (hdr : Header) (msg : List ℕ) (x : Ctx)
        → All P x.calls
        → All P (tnfs_send os hdr msg x).calls
    unfolding tnfs_send
    All-tnfs_send hdr msg x h = elim (Bool-cases (ltb 532 (4 + 1 + length msg))) [
      | inl big ↦ rw big h
      | inr fits ↦
          rw fits (All-transmit hdr.cli_fd hdr.ipaddr hdr.port (packet hdr.sid hdr msg) x.io h)
    ]

    pub All-send_nosess :
        (hdr : Header) (io : Io) → All P io.calls → All P (send_nosess os hdr io).calls
    unfolding send_nosess
    All-send_nosess hdr io h = All-transmit hdr.cli_fd hdr.ipaddr hdr.port (packet 0 hdr []) io h

    pub All-reply :
        (hdr : Header) (status : ℕ) (msg : List ℕ) (x : Ctx)
        → All P x.calls
        → All P (reply os hdr status msg x).calls
    unfolding reply
    All-reply hdr status msg x h = All-tnfs_send (record hdr { status = status }) msg x h

  -- What `tnfs_resend` will send is the message just sent.
  pub lastmsg-tnfs_send :
      (hdr : Header) (msg : List ℕ) (x : Ctx)
      → length msg ≤ 527
      → take ((tnfs_send os hdr msg x).sess).lastmsgsz ((tnfs_send os hdr msg x).sess).lastmsg
        ≡ packet hdr.sid hdr msg
  unfolding tnfs_send
  lastmsg-tnfs_send hdr msg x h = elim (Bool-cases (ltb 532 (4 + 1 + length msg))) [
    | inl big ↦ absurd (ground arith)
    | inr fits ↦ rw fits (
        take_self (packet hdr.sid hdr msg) _ (4 + 1 + length msg)
          (omega (arith, length-packet hdr.sid hdr msg)))
  ]

  -- The message stays in the session: asking again after a reply that fits sends the same bytes
  -- once more, and makes no other call.
  pub tnfs_resend-tnfs_send :
      (hdr : Header) (msg : List ℕ) (ip port cli_fd : ℕ) (x : Ctx)
      → length msg ≤ 527
      → (tnfs_resend os ip port cli_fd (tnfs_send os hdr msg x)).calls
        ≡ wire_call cli_fd ip port (packet hdr.sid hdr msg)
          ∷ wire_call hdr.cli_fd hdr.ipaddr hdr.port (packet hdr.sid hdr msg)
          ∷ x.calls
  unfolding tnfs_resend
  tnfs_resend-tnfs_send hdr msg ip port cli_fd x h =
      let y = tnfs_send os hdr msg x in
      calls-transmit cli_fd ip port (take (y.sess).lastmsgsz (y.sess).lastmsg) y.io
      ∙ ap₂ (λ b cs. wire_call cli_fd ip port b ∷ cs) (lastmsg-tnfs_send hdr msg x h)
          (calls-tnfs_send hdr msg x h)
