-- ===== src/Server/Loop/Closing.antt =====
-- src/datagram.c, `tnfs_close_stale_connections` and `tnfs_close_all_connections`: the loops over the
-- array of connections change each entry by itself.
use tnfsd.Base.{
  ℕ, suc, not, ◌&&◌, List, [], ◌∷◌, ◌++◌, ◌+◌, ◌==◌, ◌≡◌, ◌∙◌, refl, ap, sym, subst, arith, ltb,
  if◌then◌else◌, inl, inr, Bool-cases, length, map, length-append, append_assoc,
}
use tnfsd.Os.{Os, Call}
use tnfsd.Tnfs.{TcpConnection, asked, conn_timeout}
use tnfsd.Sessions.{Server}
use tnfsd.Server.Event.{tnfs_event_unregister}
use tnfsd.Server.Connections.{
  on_io, conn_at, modify, tnfs_close_tcp, close_stale, tnfs_close_stale_connections, close_all,
}

-- What becomes of a connection, at the time `now`, and at the end.
abbrev pub unless_stale : ℕ → TcpConnection → TcpConnection
unless_stale now t =
    if not (t.cli_fd == 0) && ltb (t.last_contact + conn_timeout) now
    then record t { cli_fd = 0 }
    else t

abbrev pub cleared : TcpConnection → TcpConnection
cleared t = record t { cli_fd = 0 }

conn_at-append :
    (pre post : List TcpConnection) (t : TcpConnection)
    → conn_at (length pre) (pre ++ (t ∷ post)) ≡ t
conn_at-append [] post t = refl
conn_at-append (u ∷ pre) post t = conn_at-append pre post t

modify-append :
    (f : TcpConnection → TcpConnection) (pre post : List TcpConnection) (t : TcpConnection)
    → modify (length pre) f (pre ++ (t ∷ post)) ≡ pre ++ (f t ∷ post)
unfolding modify
modify-append f [] post t = refl
modify-append f (u ∷ pre) post t = ap (λ l. u ∷ l) (modify-append f pre post t)

-- An entry is done with.
done_with :
    (pre post : List TcpConnection) (t : TcpConnection)
    → (pre ++ (t ∷ [])) ++ post ≡ pre ++ (t ∷ post)
done_with pre post t = append_assoc pre (t ∷ []) post

length-done :
    (pre : List TcpConnection) (t : TcpConnection) → length (pre ++ (t ∷ [])) ≡ suc (length pre)
length-done pre t = omega (arith, length-append pre (t ∷ []))

module _ (os : Os) where
  close_tcp-append :
      (pre post : List TcpConnection) (t : TcpConnection) (srv : Server)
      → srv.tcpsocks ≡ pre ++ (t ∷ post)
      → (tnfs_close_tcp os (length pre) srv).tcpsocks ≡ pre ++ (cleared t ∷ post)
  unfolding tnfs_close_tcp tnfs_event_unregister
  close_tcp-append pre post t srv e =
      ap (modify (length pre) cleared) e ∙ modify-append cleared pre post t

  close_stale-map :
      (now : ℕ) (pre post : List TcpConnection) (srv : Server)
      → srv.tcpsocks ≡ pre ++ post
      → (close_stale os now (length post) (length pre) srv).tcpsocks
        ≡ pre ++ map (unless_stale now) post
  unfolding close_stale
  close_stale-map now pre [] srv e = e
  close_stale-map now pre (t ∷ post) srv e =
      let it : conn_at (length pre) srv.tcpsocks ≡ t =
        ap (conn_at (length pre)) e ∙ conn_at-append pre post t in
      elim (Bool-cases (not (t.cli_fd == 0) && ltb (t.last_contact + conn_timeout) now)) [
        | inl due ↦
            let rest =
              close_stale-map now (pre ++ (cleared t ∷ [])) post
                (tnfs_close_tcp os (length pre) srv)
                (close_tcp-append pre post t srv e ∙ sym (done_with pre post (cleared t))) in
            rw (it, due, close_stale)
              (subst
                (λ k.
                  (close_stale os now (length post) k (tnfs_close_tcp os (length pre) srv)).tcpsocks
                  ≡ pre ++ (cleared t ∷ map (unless_stale now) post))
                (length-done pre (cleared t)) (rest ∙ done_with pre _ (cleared t)))
        | inr stays ↦
            let rest =
              close_stale-map now (pre ++ (t ∷ [])) post srv (e ∙ sym (done_with pre post t)) in
            rw (it, stays, close_stale)
              (subst
                (λ k.
                  (close_stale os now (length post) k srv).tcpsocks
                  ≡ pre ++ (t ∷ map (unless_stale now) post))
                (length-done pre t) (rest ∙ done_with pre _ t))
      ]

  -- The connections after the stale ones are closed are the ones before, each one that is in use and
  -- has been silent for more than 600 seconds closed, each other one as it was.
  pub tnfs_close_stale_connections-map :
      (srv : Server)
      → (tnfs_close_stale_connections os srv).tcpsocks
        ≡ map (unless_stale (os.time srv.calls)) srv.tcpsocks
  unfolding tnfs_close_stale_connections
  tnfs_close_stale_connections-map srv =
      close_stale-map (os.time srv.calls) [] srv.tcpsocks (on_io (asked Call.time) srv) refl

  abbrev unless_free : TcpConnection → TcpConnection
  unless_free t = if not (t.cli_fd == 0) then cleared t else t

  close_all-map :
      (pre post : List TcpConnection) (srv : Server)
      → srv.tcpsocks ≡ pre ++ post
      → (close_all os (length post) (length pre) srv).tcpsocks ≡ pre ++ map unless_free post
  unfolding close_all
  close_all-map pre [] srv e = e
  close_all-map pre (t ∷ post) srv e =
      let it : conn_at (length pre) srv.tcpsocks ≡ t =
        ap (conn_at (length pre)) e ∙ conn_at-append pre post t in
      elim (Bool-cases (not (t.cli_fd == 0))) [
        | inl used ↦
            let rest =
              close_all-map (pre ++ (cleared t ∷ [])) post (tnfs_close_tcp os (length pre) srv)
                (close_tcp-append pre post t srv e ∙ sym (done_with pre post (cleared t))) in
            rw (it, used, close_all)
              (subst
                (λ k.
                  (close_all os (length post) k (tnfs_close_tcp os (length pre) srv)).tcpsocks
                  ≡ pre ++ (cleared t ∷ map unless_free post))
                (length-done pre (cleared t)) (rest ∙ done_with pre _ (cleared t)))
        | inr free ↦
            let rest = close_all-map (pre ++ (t ∷ [])) post srv (e ∙ sym (done_with pre post t)) in
            rw (it, free, close_all)
              (subst
                (λ k.
                  (close_all os (length post) k srv).tcpsocks ≡ pre ++ (t ∷ map unless_free post))
                (length-done pre t) (rest ∙ done_with pre _ t))
      ]
