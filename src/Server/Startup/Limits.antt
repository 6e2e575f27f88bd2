-- ===== src/Server/Startup/Limits.antt =====
-- src/tnfsd.c, `raise_fd_limit`: the limit of descriptors is only ever raised, and not too far.
use tnfsd.Base.{◌≤◌, ◌<◌, ltb, min, ◌∷◌, ◌≡◌, ◌⊎◌, refl, arith, inl, inr, Bool-cases}
use tnfsd.Os.{Os, Call, Rlimit, ok}
use tnfsd.Tnfs.{Io}
use tnfsd.Server.Startup.{wanted, raise_fd_limit}

wanted-min :
    (os : Os) (rl : Rlimit) → 65536 ≤ os.rlim_infinity → wanted os rl ≡ min rl.rlim_max 65536
wanted-min os rl h = ground arith

-- If RLIM_INFINITY is 65536 or more and the limit can be read: either it is no lower than the hard
-- limit or than 65536 already and nothing is set, or it is set once, to the lower one of the hard
-- limit and 65536, which is more than before, and the hard limit is left as it is.
pub raise_fd_limit-min :
    (os : Os) (io : Io) (rl : Rlimit)
    → 65536 ≤ os.rlim_infinity
    → os.getrlimit io.calls ≡ ok rl
    → let y = raise_fd_limit os io in
      ((min rl.rlim_max 65536 ≤ rl.rlim_cur) × (y.calls ≡ Call.getrlimit ∷ io.calls))
      ⊎ ((l : Rlimit) × (rl.rlim_cur < l.rlim_cur)
          × (l.rlim_cur ≡ min rl.rlim_max 65536)
          × (l.rlim_max ≡ rl.rlim_max)
          × (y.calls ≡ Call.getrlimit ∷ Call.setrlimit l ∷ Call.getrlimit ∷ io.calls))
unfolding raise_fd_limit
raise_fd_limit-min os io rl h read =
    let m = wanted-min os rl h in
    elim (Bool-cases (ltb rl.rlim_cur (wanted os rl))) [
      | inl low ↦ inr (
        record rl { rlim_cur = wanted os rl },
        ground (arith, low, m),
        m,
        refl,
        rw (read, low) refl,
      )
      | inr high ↦ inl (ground (arith, high, m), rw (read, high) refl)
    ]
