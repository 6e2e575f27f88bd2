-- ===== src/Dir/Paging/Draining.antt =====
-- src/directory.c, `tnfs_readdirx`: a client that asks often enough is handed the whole directory.
use tnfsd.Base.{
  take-nil, suc_add, drop_all, take_all, drop-drop, ℕ, zero, suc, List, [], ◌∷◌, ◌++◌, ◌+◌, ◌≤◌,
  ◌<◌, leb, false, ◌≡◌, ◌∙◌, refl, ap, sym, subst, arith, min, length, take, drop, get_or,
  length-set, length-drop, get_or-set, append-nil, append_assoc, All,
}
use tnfsd.Os.{Os, Call}
use tnfsd.Tnfs.{Config, DirEntry, DirHandle, Header, Buf, Ctx, fresh_dhandle}
use tnfsd.Endian.{uint16tnfs}
use tnfsd.Errortable.{tnfs_eof}
use tnfsd.Send.{packet, wire_call, reply, tnfs_send}
use tnfsd.Send.Laws.{calls-tnfs_send}
use tnfsd.Dir.Commands.{dhandle_at, put_dhandle}
use tnfsd.Dir.Listing.{entry_bytes, fill_reply, readdirx_reply, readdirx_from, tnfs_readdirx}
use tnfsd.Dir.Replies.{length-readdirx_reply}
use tnfsd.Dir.Paging.{entries_bytes, fill_reply_lem}

-- A READDIRX of the handle `i` for `req` entries, as the handler gets it.
abbrev pub request : ℕ → ℕ → ℕ → Buf
request i req cmd = record { bytes = i ∷ req ∷ []; bufsz = 2; before = cmd }

-- What a message to a client holds behind the header of a READDIRX reply.
abbrev handed : Call → List ℕ
handed (Call.sendto ip port bytes) = drop 9 bytes
handed (Call.send fd bytes) = drop 9 bytes
handed _ = []

-- The same of all messages, in the order in which they were sent.
unfoldable pub handed_out : List Call → List ℕ
handed_out [] = []
handed_out (c ∷ cs) = handed_out cs ++ handed c

-- What is left for the handle `i`.
abbrev pub left_at : ℕ → Ctx → List DirEntry
left_at i x = (dhandle_at x.sess i).current_entry

-- Names as they are in a loaded directory
abbrev pub NamesFit : List DirEntry → Type 0
NamesFit = All (λ e. length e.entrypath ≤ 255)

NamesFit-drop : (n : ℕ) (l : List DirEntry) → NamesFit l → NamesFit (drop n l)
NamesFit-drop zero l all = all
NamesFit-drop (suc n) [] all = tt
NamesFit-drop (suc n) (e ∷ l) all = NamesFit-drop n l all.1

entries_bytes-take :
    (n m : ℕ) (l : List DirEntry)
    → entries_bytes (take n l) ++ entries_bytes (take m (drop n l)) ≡ entries_bytes (take (n + m) l)
unfolding entries_bytes
entries_bytes-take zero m l = let e : 0 + m ≡ m = omega arith in rw e refl
entries_bytes-take (suc n) m [] = rw (suc_add n m, take-nil m) refl
entries_bytes-take (suc n) m (e ∷ l) = rw (suc_add n m) (
    append_assoc (entry_bytes e) (entries_bytes (take n l)) (entries_bytes (take m (drop n l)))
    ∙ ap (λ b. entry_bytes e ++ b) (entries_bytes-take n m l))

-- From one state to another, `k` entries were handed out.
abbrev Hands : ℕ → ℕ → Ctx → Ctx → Type 0
Hands i k x y =
    (left_at i y ≡ drop k (left_at i x))
    × (handed_out y.calls ≡ handed_out x.calls ++ entries_bytes (take k (left_at i x)))
    × (length (y.sess).dhandles ≡ length (x.sess).dhandles)

handed-wire :
    (fd ip port sid a b c d : ℕ) (hdr : Header) (bytes : List ℕ) (calls : List Call)
    → handed_out (wire_call fd ip port (packet sid hdr (a ∷ b ∷ c ∷ d ∷ bytes)) ∷ calls)
      ≡ handed_out calls ++ bytes
unfolding handed_out packet uint16tnfs
handed-wire fd ip port sid a b c d hdr bytes calls = ground arith

handed-eof :
    (fd ip port sid : ℕ) (hdr : Header) (calls : List Call)
    → handed_out (wire_call fd ip port (packet sid hdr []) ∷ calls) ≡ handed_out calls ++ []
unfolding handed_out packet uint16tnfs
handed-eof fd ip port sid hdr calls = ground arith

module _ (os : Os) (conf : Config) where
  dhandles-reply :
      (hdr : Header) (status : ℕ) (msg : List ℕ) (x : Ctx)
      → ((reply os hdr status msg x).sess).dhandles ≡ (x.sess).dhandles
  unfolding reply tnfs_send
  dhandles-reply hdr status msg x = ground arith

  calls-reply :
      (hdr : Header) (status : ℕ) (msg : List ℕ) (x : Ctx)
      → length msg ≤ 527
      → (reply os hdr status msg x).calls
        ≡ wire_call hdr.cli_fd hdr.ipaddr hdr.port
            (packet hdr.sid (record hdr { status = status }) msg)
          ∷ x.calls
  unfolding reply
  calls-reply hdr status msg x h = calls-tnfs_send os (record hdr { status = status }) msg x h

  from_some :
      (hdr : Header) (i req : ℕ) (dh : DirHandle) (e : DirEntry) (l : List DirEntry) (x : Ctx)
      → i < length (x.sess).dhandles
      → left_at i x ≡ e ∷ l
      → length e.entrypath ≤ 255
      → Hands i (fill_reply req (e ∷ l) 0 4).sent x (readdirx_from os conf hdr i req dh (e ∷ l) x)
  unfolding readdirx_from readdirx_reply uint16tnfs
  from_some hdr i req dh e l x inside cur short =
      let f = fill_reply req (e ∷ l) 0 4 in
      let q = fill_reply_lem req e l short in
      let msg = readdirx_reply dh f in
      let y = put_dhandle i (record dh { current_entry = f.rest }) x in
      let kept = dhandles-reply hdr 0 msg y in
      let written =
        get_or-set i (record dh { current_entry = f.rest }) fresh_dhandle (x.sess).dhandles
          inside in
      (
        ap (λ hs. (get_or hs i fresh_dhandle).current_entry) kept
            ∙ ap (λ d. d.current_entry) written
            ∙ q.1
            ∙ ap (drop f.sent) (sym cur),
        ap handed_out (calls-reply hdr 0 msg y (length-readdirx_reply dh req (e ∷ l)))
            ∙ handed-wire hdr.cli_fd hdr.ipaddr hdr.port hdr.sid _ _ _ _ _ f.bytes x.calls
            ∙ ap (λ b. handed_out x.calls ++ b)
                (q.0 ∙ ap (λ m. entries_bytes (take f.sent m)) (sym cur)),
        ap length kept ∙ length-set _ i _,
      )

  from_none :
      (hdr : Header) (i req : ℕ) (dh : DirHandle) (x : Ctx)
      → left_at i x ≡ []
      → Hands i 0 x (readdirx_from os conf hdr i req dh [] x)
  unfolding readdirx_from entries_bytes
  from_none hdr i req dh x cur =
      let kept = dhandles-reply hdr tnfs_eof [] x in
      (
        ap (λ hs. (get_or hs i fresh_dhandle).current_entry) kept,
        ap handed_out (calls-reply hdr tnfs_eof [] x (omega arith))
            ∙ handed-eof hdr.cli_fd hdr.ipaddr hdr.port hdr.sid _ x.calls,
        ap length kept,
      )

  from_entries :
      (hdr : Header) (i req : ℕ) (dh : DirHandle) (l : List DirEntry) (x : Ctx)
      → i < length (x.sess).dhandles
      → left_at i x ≡ l
      → NamesFit l
      → ((k : ℕ) × Hands i k x (readdirx_from os conf hdr i req dh l x) × (min 1 (length l) ≤ k))
  from_entries hdr i req dh [] x inside cur fit = (0, from_none hdr i req dh x cur, omega arith)
  from_entries hdr i req dh (e ∷ l) x inside cur fit =
      let f = fill_reply req (e ∷ l) 0 4 in
      let q = fill_reply_lem req e l fit.0 in
      (f.sent, from_some hdr i req dh e l x inside cur fit.0, omega (arith, q.2))

  -- One request hands out some of what is left, and one entry at least while there is one.
  one_more :
      (hdr : Header) (i req : ℕ) (x : Ctx)
      → i < 8
      → i < length (x.sess).dhandles
      → NamesFit (left_at i x)
      → ((k : ℕ) × Hands i k x (tnfs_readdirx os conf hdr (request i req hdr.cmd) x)
          × (min 1 (length (left_at i x)) ≤ k))
  unfolding tnfs_readdirx
  one_more hdr i req x known inside fit =
      let taken : leb 8 i ≡ false = ground arith in
      rw taken (from_entries hdr i req (dhandle_at x.sess i) (left_at i x) x inside refl fit)

  -- A client's READDIRX of the handle `i`, one after the other, each for as many entries as it says.
  unfoldable pub drain : ℕ → List (Header × ℕ) → Ctx → Ctx
  drain i [] x = x
  drain i (a ∷ asks) x = drain i asks (tnfs_readdirx os conf a.0 (request i a.1 a.0.cmd) x)

  drain-Hands :
      (i : ℕ) (asks : List (Header × ℕ)) (x : Ctx)
      → i < 8
      → i < length (x.sess).dhandles
      → NamesFit (left_at i x)
      → ((k : ℕ) × Hands i k x (drain i asks x) × (min (length asks) (length (left_at i x)) ≤ k))
  unfolding drain entries_bytes
  drain-Hands i [] x known inside fit = (0, (refl, sym (append-nil _), refl), omega arith)
  drain-Hands i (a ∷ asks) x known inside fit =
      let one = one_more a.0 i a.1 x known inside fit in
      let y = tnfs_readdirx os conf a.0 (request i a.1 a.0.cmd) x in
      let left = one.1.0 in
      let more =
        drain-Hands i asks y known (omega (arith, one.1.2, inside))
          (subst NamesFit (sym left) (NamesFit-drop one.0 (left_at i x) fit)) in
      (
        one.0 + more.0,
        (
          more.1.0 ∙ ap (drop more.0) left ∙ drop-drop one.0 more.0 (left_at i x),
          more.1.1
              ∙ ap (λ b. b ++ entries_bytes (take more.0 (left_at i y))) one.1.1
              ∙ append_assoc (handed_out x.calls) (entries_bytes (take one.0 (left_at i x))) _
              ∙ ap (λ b. handed_out x.calls ++ b)
                  (ap
                      (λ l.
                        entries_bytes (take one.0 (left_at i x)) ++ entries_bytes (take more.0 l))
                      left
                    ∙ entries_bytes-take one.0 more.0 (left_at i x)),
          more.1.2 ∙ one.1.2,
        ),
        omega (arith, one.2, more.2, ap length left, length-drop one.0 (left_at i x)),
      )

  -- A client that has OPENDIRX's handle and asks as many times as there are entries left, each time
  -- for any number of them, has been handed the bytes of all of these entries, in their order and
  -- each once, and nothing is left; the next READDIRX is answered by the end of the directory. The
  -- handle is one of the session's, below 8, no name is longer than the 255 bytes that a loaded entry
  -- has room for, and no other command comes between.
  pub drain_lem :
      (i : ℕ) (asks : List (Header × ℕ)) (last : Header) (req : ℕ) (x : Ctx)
      → i < 8
      → i < length (x.sess).dhandles
      → NamesFit (left_at i x)
      → length (left_at i x) ≤ length asks
      → let y = drain i asks x in
        (left_at i y ≡ [])
        × (handed_out y.calls ≡ handed_out x.calls ++ entries_bytes (left_at i x))
        × (tnfs_readdirx os conf last (request i req last.cmd) y ≡ reply os last tnfs_eof [] y)
  unfolding tnfs_readdirx readdirx_from
  drain_lem i asks last req x known inside fit enough =
      let d = drain-Hands i asks x known inside fit in
      let all : length (left_at i x) ≤ d.0 = omega (arith, d.2, enough) in
      let done = d.1.0 ∙ drop_all d.0 (left_at i x) all in
      let taken : leb 8 i ≡ false = ground arith in
      (
        done,
        d.1.1 ∙ ap (λ l. handed_out x.calls ++ entries_bytes l) (take_all d.0 (left_at i x) all),
        rw (taken, done) refl,
      )
