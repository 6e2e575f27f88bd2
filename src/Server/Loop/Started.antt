-- ===== src/Server/Loop/Started.antt =====
-- src/datagram.c, `tnfs_mainloop`, from its start: `tnfs_init` leaves every slot of the table free.
use tnfsd.Base.{ℕ, zero, suc, none, List, ◌≡◌, sym, subst, arith, replicate}
use tnfsd.Os.{Os}
use tnfsd.Tnfs.{Config, max_sessions}
use tnfsd.Shape.{conns}
use tnfsd.Sessions.{tnfs_init}
use tnfsd.Sessions.Table.{count_ip}
use tnfsd.Sessions.Limit.{Limited}
use tnfsd.Sessions.Sound.{Sound}
use tnfsd.Sessions.Ids.{Distinct}
use tnfsd.Server.Sound.{IsGood}
use tnfsd.Server.Connections.{Listeners, Acceptor}
use tnfsd.Server.Loop.{loop_start, server_of, passes}
use tnfsd.Server.Loop.Steps.{passes-Reach}
use tnfsd.Server.Loop.Invariant.{Reach-IsGood}

Distinct-free : (n : ℕ) → Distinct (replicate n none)
unfolding Distinct
Distinct-free zero = tt
Distinct-free (suc n) = (tt, Distinct-free n)

Limited-free : (ip n : ℕ) → Limited ip (replicate n none)
unfolding count_ip
Limited-free ip zero = omega arith
Limited-free ip (suc n) = Limited-free ip n

Sound-free : (c : List ℕ) (n : ℕ) → Sound c (replicate n none)
Sound-free c zero = tt
Sound-free c (suc n) = (tt, Sound-free c n)

started-IsGood :
    (os : Os) (conf : Config) (at : Listeners) (p : Acceptor)
    → (p.server).slist ≡ tnfs_init
    → IsGood (server_of (loop_start os conf at p))
unfolding IsGood loop_start tnfs_init
started-IsGood os conf at p e = (
  subst Distinct (sym e) (Distinct-free max_sessions),
  λ ip. subst (Limited (suc ip)) (sym e) (Limited-free (suc ip) max_sessions),
  (let c = conns (server_of (loop_start os conf at p)).io in
      subst (Sound c) (sym e) (Sound-free c max_sessions)),
)

-- However many passes the main loop makes after a start with no sessions, and whatever arrives: no
-- two sessions have the same ID, no client but the address 0 has more than 16 sessions, the tables of
-- every session have their sizes, its kept message fits its buffer, and the connection that it names,
-- if any, is open.
pub passes-IsGood :
    (os : Os) (conf : Config) (at : Listeners) (n : ℕ) (p : Acceptor)
    → (p.server).slist ≡ tnfs_init
    → IsGood (server_of (passes os conf at n (loop_start os conf at p)).loop)
passes-IsGood os conf at n p e =
    Reach-IsGood os conf at (started-IsGood os conf at p e)
      (passes-Reach os conf at n (loop_start os conf at p))
