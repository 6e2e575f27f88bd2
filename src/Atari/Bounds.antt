-- ===== src/Atari/Bounds.antt =====
-- src/atari.c, `atari_virtual_read`: it gives no more bytes than it is asked for, sends nothing and
-- changes no file.
use tnfsd.Base.{
  ℕ, zero, suc, Bool, true, false, List, ◌++◌, ◌+◌, ◌-◌, ◌≤◌, ◌≡◌, refl, inl, inr, arith, min, leb,
  if◌then◌else◌, Bool-cases, All, ltb, length, take, drop, replicate, length-append, length-take,
  length-replicate,
}
use tnfsd.Base.Int.{pos}
use tnfsd.Os.{
  Os, Call, Result, ok, err, sends, is_mutating, opens_for_write, OpenFlags, HoldsOfReads,
  ReadBound, seek_set,
}
use tnfsd.Tnfs.{Config, AtariFd, Io, Ctx, did}
use tnfsd.Atari.{
  ReadEnd, failed, finished, Region, done, header, boot, real, padding, region, header_bytes,
  boot_bytes, prepend, after_read, after_seek, read_round, read_regions, virtual_end, atari_meta,
  atari_virtual_read, atari_should_virtualize, file_end, boot_end, atr_total_size, atr_header,
}

-- No more than `n` bytes were read, nothing was sent since `io`, and no file was changed.
abbrev pub Quiet : (Call → Type 0) → ℕ → Io → ReadEnd × Io → Type 0
Quiet P n io (end, io') =
    (elim end [ failed ↦ Unit {0} | finished bytes at ↦ length bytes ≤ n ])
    × (sends io'.calls ≡ sends io.calls)
    × (All P io.calls → All P io'.calls)

prepend-Quiet :
    (P : Call → Type 0) (n m : ℕ) (bytes : List ℕ) (io : Io) (r : ReadEnd × Io)
    → length bytes + m ≤ n
    → Quiet P m io r
    → Quiet P n io (prepend bytes r)
prepend-Quiet P n m bytes io (failed, io') h q = q
prepend-Quiet P n m bytes io (finished rest at, io') h q =
    (omega (arith, length-append bytes rest, q.0), q.1, q.2)

length-header_bytes : (vpos n : ℕ) → length (header_bytes vpos n) ≤ n
unfolding header_bytes
length-header_bytes vpos n = omega (arith, length-take n (drop vpos atr_header))

length_filled : (a n : ℕ) (xs : List ℕ) → a ≤ n → length (take a xs ++ replicate (n - a) 0) ≤ n
length_filled a n xs h = omega (
  arith,
  length-append (take a xs) (replicate (n - a) 0),
  length-take a xs,
  length-replicate {A = ℕ} (n - a) 0,
)

length-boot_bytes : (bs : List ℕ) (off n : ℕ) → length (boot_bytes bs off n) ≤ n
unfolding boot_bytes
length-boot_bytes bs off n =
    length_filled (if ltb off (length bs) then min n (length bs - off) else 0) n (drop off bs)
      (ground arith)

module _ (P : Call → Type 0) (reads : HoldsOfReads P) (os : Os) (bound : ReadBound os) (bs : List ℕ)
    (size fd : ℕ) where
  module _ (again : ℕ → ℕ → Io → ReadEnd × Io)
      (ih : (vpos count : ℕ) (io : Io) → Quiet P count io (again vpos count io)) (first : Bool)
      (vpos count : ℕ) where
    after_read-Quiet :
        (n : ℕ) (r : Result (List ℕ)) (io : Io)
        → n ≤ count
        → ((bytes : List ℕ) → r ≡ ok bytes → length bytes ≤ n)
        → Quiet P count io (after_read os bs size fd again first vpos count n r io)
    unfolding after_read
    after_read-Quiet n (err e) io le short = elim (Bool-cases first) [
      | inl e ↦ rw e (tt, refl, λ q. q)
      | inr e ↦ rw e (omega arith, refl, λ q. q)
    ]
    after_read-Quiet n (ok got) io le short = elim (Bool-cases (ltb (length got) n)) [
      | inl less ↦ rw less (omega (arith, short got refl), refl, λ q. q)
      | inr full ↦ rw full (
          prepend-Quiet P count (count - length got) got io _ (omega (arith, short got refl))
            (ih (vpos + length got) (count - length got) io))
    ]

    after_seek-Quiet :
        (r : Result ℕ) (io : Io)
        → Quiet P count io (after_seek os bs size fd again first vpos count r io)
    unfolding after_seek sends is_mutating
    after_seek-Quiet (err e) io = (omega arith, refl, λ q. q)
    after_seek-Quiet (ok at) io =
        let n = min count (file_end os bs size fd - vpos) in
        let r = os.read_file io.calls fd n in
        let q =
          after_read-Quiet n r (did (Call.read_file fd n) r io) (omega arith)
            (bound io.calls fd n) in
        (q.0, q.1, λ ro. q.2 (reads _ refl, ro))

    read_round-Quiet :
        (io : Io) (g : Region)
        → Quiet P count io (read_round os bs size fd again first vpos count io g)
    unfolding read_round sends is_mutating
    read_round-Quiet io done = (omega arith, refl, λ q. q)
    read_round-Quiet io header =
        let n = min count (16 - vpos) in
        prepend-Quiet P count (count - n) (header_bytes vpos n) io _
          (omega (arith, length-header_bytes vpos n)) (ih (vpos + n) (count - n) io)
    read_round-Quiet io boot =
        let n = min count (boot_end os bs size fd - vpos) in
        prepend-Quiet P count (count - n) (boot_bytes bs (vpos - 16) n) io _
          (omega (arith, length-boot_bytes bs (vpos - 16) n)) (ih (vpos + n) (count - n) io)
    read_round-Quiet io real =
        let offset = vpos - boot_end os bs size fd in
        let r = os.lseek io.calls fd (pos offset) seek_set in
        let q = after_seek-Quiet r (did (Call.lseek fd (pos offset) seek_set) r io) in
        (q.0, q.1, λ ro. q.2 (reads _ refl, ro))
    read_round-Quiet io padding =
        let n = min count (atr_total_size - vpos) in
        prepend-Quiet P count (count - n) (replicate n 0) io _
          (omega (arith, length-replicate {A = ℕ} n 0)) (ih (vpos + n) (count - n) io)

  read_regions-Quiet :
      (fuel : ℕ) (first : Bool) (vpos count : ℕ) (io : Io)
      → Quiet P count io (read_regions os bs size fd fuel first vpos count io)
  unfolding read_regions
  read_regions-Quiet zero first vpos count io = (omega arith, refl, λ q. q)
  read_regions-Quiet (suc fuel) first vpos count io =
      read_round-Quiet (read_regions os bs size fd fuel false) (read_regions-Quiet fuel false) first
        vpos count io (region os bs size fd vpos count)

virtual_end-Quiet :
    (P : Call → Type 0) (i n : ℕ) (m : AtariFd) (x : Ctx) (end : ReadEnd × Io)
    → Quiet P n x.io end
    → ((bytes : List ℕ) → (virtual_end i m x end).0 ≡ ok bytes → length bytes ≤ n)
      × (sends (virtual_end i m x end).1.calls ≡ sends x.calls)
      × (All P x.calls → All P (virtual_end i m x end).1.calls)
unfolding virtual_end
virtual_end-Quiet P i n m x (failed, io) q = (λ bytes e. absurd (cc e), q.1, q.2)
virtual_end-Quiet P i n m x (finished got at, io) q = (λ bytes e. ground (arith, q.0), q.1, q.2)

-- A read of an image returns no more bytes than it is asked for, sends no message, and makes no call
-- that changes files or directories.
pub atari_virtual_read_lem :
    (P : Call → Type 0) (reads : HoldsOfReads P) (os : Os) (conf : Config) (i fd count : ℕ)
    (x : Ctx)
    → ReadBound os
    → ((bytes : List ℕ)
        → (atari_virtual_read os conf i fd count x).0 ≡ ok bytes
        → length bytes ≤ count)
      × (sends (atari_virtual_read os conf i fd count x).1.calls ≡ sends x.calls)
      × (All P x.calls → All P (atari_virtual_read os conf i fd count x).1.calls)
unfolding atari_virtual_read
atari_virtual_read_lem P reads os conf i fd count x bound =
    let m = atari_meta x.sess i in
    let vpos = m.virtual_position in
    let n = min count (atr_total_size - vpos) in
    let end = read_regions os conf.bootsector m.real_file_size fd n true vpos n x.io in
    let q =
      read_regions-Quiet P reads os bound conf.bootsector m.real_file_size fd n true vpos n x.io in
    let v = virtual_end-Quiet P i n m x end q in
    elim (Bool-cases (leb atr_total_size vpos)) [
      | inl past ↦ rw past (λ bytes e. ground arith, refl, λ ro. ro)
      | inr inside ↦ rw inside (λ bytes e. omega (arith, v.0 bytes e), v.1, v.2)
    ]

-- Nor does the look at a file's first bytes.
pub atari_should_virtualize_lem :
    (P : Call → Type 0) (reads : HoldsOfReads P) (os : Os) (conf : Config) (path : List ℕ)
    (flags : OpenFlags) (io : Io)
    → (sends (atari_should_virtualize os conf path flags io).1.calls ≡ sends io.calls)
      × (All P io.calls → All P (atari_should_virtualize os conf path flags io).1.calls)
unfolding atari_should_virtualize sends is_mutating opens_for_write
atari_should_virtualize_lem P reads os conf path flags io =
    (ground arith, λ ro. grind (arith, reads))
