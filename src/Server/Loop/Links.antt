-- ===== src/Server/Loop/Links.antt =====
-- src/datagram.c: the connections that are there, when one is accepted, read from or closed.
use tnfsd.Base.{
  ℕ, zero, suc, true, false, Option, none, some, Option-cases, List, [], ◌∷◌, ◌==◌, ◌≡◌, refl, ap,
  arith, inl, inr, Bool-cases, ==_refl, subst, length,
}
use tnfsd.Tnfs.{TcpConnection}
use tnfsd.Shape.{fds}
use tnfsd.Sessions.Sound.{linked, linked-zero}
use tnfsd.Server.Connections.{conn_at, modify, place_conn}

abbrev pub close_at : ℕ → List TcpConnection → List TcpConnection
close_at i = modify i (λ t. record t { cli_fd = 0 })

pub fds-touched :
    (i now : ℕ) (ts : List TcpConnection)
    → fds (modify i (λ t. record t { last_contact = now }) ts) ≡ fds ts
unfolding modify
fds-touched i now [] = refl
fds-touched zero now (t ∷ ts) = refl
fds-touched (suc i) now (t ∷ ts) = ap (λ l. t.cli_fd ∷ l) (fds-touched i now ts)

pub length-modify :
    (i : ℕ) (f : TcpConnection → TcpConnection) (ts : List TcpConnection)
    → length (modify i f ts) ≡ length ts
unfolding modify
length-modify i f [] = refl
length-modify zero f (t ∷ ts) = refl
length-modify (suc i) f (t ∷ ts) = ap suc (length-modify i f ts)

-- The connection in a slot is one of the connections, or none.
pub linked-conn_at :
    (i : ℕ) (ts : List TcpConnection) → linked (fds ts) (conn_at i ts).cli_fd ≡ true
unfolding linked
linked-conn_at i [] = refl
linked-conn_at zero (t ∷ ts) = rw (==_refl t.cli_fd) refl
linked-conn_at (suc i) (t ∷ ts) = grind (arith, linked-conn_at i ts)

pub linked-close_at :
    (i f : ℕ) (ts : List TcpConnection)
    → (f == (conn_at i ts).cli_fd) ≡ false
    → linked (fds ts) f ≡ true
    → linked (fds (close_at i ts)) f ≡ true
unfolding modify linked
linked-close_at i f [] e h = h
linked-close_at zero f (t ∷ ts) e h = grind arith
linked-close_at (suc i) f (t ∷ ts) e h = grind (arith, linked-close_at i f ts e)

abbrev list_or : List TcpConnection → Option (List TcpConnection) → List TcpConnection
list_or d none = d
list_or d (some l) = l

-- A connection takes a free slot.
pub linked-place_conn :
    (c : TcpConnection) (f : ℕ) (ts us : List TcpConnection)
    → place_conn c ts ≡ some us
    → linked (fds ts) f ≡ true
    → linked (fds us) f ≡ true
unfolding place_conn linked
linked-place_conn c f [] us e h = absurd (ground arith)
linked-place_conn c f (t ∷ ts) us e h = elim (Bool-cases (t.cli_fd == 0)) [
  | inl free ↦
      let same : (c ∷ ts) ≡ us = ap (list_or us) (rw free at e) in
      subst (λ l. linked (fds l) f ≡ true) same (grind (arith, linked-zero (fds ts)))
  | inr used ↦ elim (Option-cases (place_conn c ts)) [
    | inl full ↦ absurd (ground arith)
    | inr (vs, placed) ↦
        let same : (t ∷ vs) ≡ us = ap (list_or us) (rw (used, placed) at e) in
        subst (λ l. linked (fds l) f ≡ true) same
          (grind (arith, linked-place_conn c f ts vs placed))
  ]
]
