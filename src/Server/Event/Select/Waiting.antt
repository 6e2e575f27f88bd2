-- ===== src/Server/Event/Select/Waiting.antt =====
-- src/event_select.c, src/event_common.c: what `tnfs_event_wait` gives back.
use tnfsd.Base.{
  ℕ, zero, suc, Bool, false, ◌&&◌, ◌||◌, ◌==◌, leb, ◌≤◌, ◌<◌, ◌-◌, List, [], ◌∷◌, ◌++◌, ◌≡◌, ◌∙◌,
  refl, sym, ap, arith, inl, inr, Bool-cases, length, take, replicate,
}
use tnfsd.Os.{Os, Call, Result, ok, err, Selected}
use tnfsd.Tnfs.{Io}
use tnfsd.Server.Event.{tnfs_event_is_active}
use tnfsd.Server.Event.Select.{
  EventFdList, select_register, select_unregister, select_set, ready_fds, select_wait,
}
use tnfsd.Server.Event.Select.Registered.{
  Request, add, remove, registered, serve, watched, registered-select_register,
  registered-select_unregister, registered-serve,
}

-- No number stands in the list twice.
abbrev pub NoTwice : List ℕ → Type 0
NoTwice [] = Unit {0}
NoTwice (f ∷ fs) = (tnfs_event_is_active fs f ≡ false) × NoTwice fs

-- No descriptor is added while it is in the set.
abbrev pub AddsNew : List Request → Type 0
AddsNew [] = Unit {0}
AddsNew (add fd ∷ rs) = (watched rs fd ≡ false) × AddsNew rs
AddsNew (remove fd ∷ rs) = AddsNew rs

-- `select` counts all the descriptors of the set that it leaves in it for reading.
abbrev pub CountsReady : Os → Type 0
CountsReady os =
    (h : List Call) (fds : List ℕ) (t : ℕ) (sel : Selected)
    → NoTwice fds
    → os.select h fds t ≡ ok sel
    → length (ready_fds sel.readable fds) ≤ sel.count

active-select_set :
    (g : ℕ) (es : EventFdList) → tnfs_event_is_active (select_set es) g ≡ registered es g
unfolding select_set tnfs_event_is_active
active-select_set g [] = refl
active-select_set g (e ∷ es) = grind (arith, active-select_set g es)

ready_fds-select_set :
    (p : ℕ → Bool) (es : EventFdList) → ready_fds p (select_set es) ≡ ready_fds p es
unfolding select_set ready_fds
ready_fds-select_set p [] = refl
ready_fds-select_set p (e ∷ es) = grind (arith, ready_fds-select_set p es)

active-ready_fds :
    (p : ℕ → Bool) (g : ℕ) (es : EventFdList)
    → tnfs_event_is_active (ready_fds p es) g ≡ (registered es g && p g)
unfolding ready_fds tnfs_event_is_active
active-ready_fds p g [] = refl
active-ready_fds p g (e ∷ es) = elim (Bool-cases (e == g)) [
  | inl same ↦
      let here : e ≡ g = ground arith in
      let alike = ap p here in grind (arith, active-ready_fds p g es)
  | inr other ↦ grind (arith, active-ready_fds p g es)
]

active-zeros : (n m g : ℕ) → 0 < g → tnfs_event_is_active (take n (replicate m 0)) g ≡ false
unfolding tnfs_event_is_active
active-zeros zero m g h = refl
active-zeros (suc n) zero g h = refl
active-zeros (suc n) (suc m) g h = grind (arith, active-zeros n m g h)

active-take :
    (n m g : ℕ) (fs : List ℕ)
    → 0 < g
    → length fs ≤ n
    → tnfs_event_is_active (take n (fs ++ replicate m 0)) g ≡ tnfs_event_is_active fs g
unfolding tnfs_event_is_active
active-take n m g [] p h = active-zeros n m g p
active-take zero m g (f ∷ fs) p h = absurd (omega arith)
active-take (suc n) m g (f ∷ fs) p h = ap (λ b. f == g || b) (active-take n m g fs p (omega arith))

NoTwice-select_register :
    (fd : ℕ) (es : EventFdList)
    → registered es fd ≡ false
    → NoTwice (select_set es)
    → NoTwice (select_set (select_register fd es).1)
unfolding select_set select_register
NoTwice-select_register fd [] new q = q
NoTwice-select_register fd (e ∷ es) new q = elim (Bool-cases (e == 0)) [
  | inl free ↦
      let q' : NoTwice (select_set es) = rw (free, select_set) at q in
      elim (Bool-cases (leb 1024 fd)) [
        | inl high ↦ rw (free, high, select_register) q
        | inr low ↦
            let absent : registered es fd ≡ false = rw free at new in
            elim (Bool-cases (fd == 0)) [
              | inl none_added ↦ rw (free, low, select_register, none_added, select_set) q'
              | inr added ↦
                  rw (free, low, select_register, added, select_set)
                    (active-select_set fd es ∙ absent, q')
            ]
      ]
  | inr used ↦
      let q' : NoTwice (e ∷ select_set es) = rw (used, select_set) at q in
      let absent : registered es fd ≡ false = ground (arith, new) in
      let r = NoTwice-select_register fd es absent q'.1 in
      let once : registered es e ≡ false = sym (active-select_set e es) ∙ q'.0 in
      let after = select_register fd es in
      let distinct : (e == fd) ≡ false = ground (arith, new) in
      let still : registered after.1 e ≡ false =
        registered-select_register fd e es ∙ rw (distinct, used, once) (ground arith) in
      rw (used, select_register) (rw (used, select_set) (active-select_set e after.1 ∙ still, r))
]

NoTwice-tail : (e : ℕ) (es : EventFdList) → NoTwice (select_set (e ∷ es)) → NoTwice (select_set es)
unfolding select_set
NoTwice-tail e es q = elim (Bool-cases (e == 0)) [
  | inl free ↦ rw (free, select_set) at q
  | inr used ↦ let q' : NoTwice (e ∷ select_set es) = rw (used, select_set) at q in q'.1
]

NoTwice-select_unregister :
    (fd : ℕ) (es : EventFdList)
    → NoTwice (select_set es)
    → NoTwice (select_set (select_unregister fd es))
unfolding select_set select_unregister
NoTwice-select_unregister fd [] q = q
NoTwice-select_unregister fd (e ∷ es) q =
    let r = NoTwice-select_unregister fd es (NoTwice-tail e es q) in
    elim (Bool-cases (e == fd)) [
      | inl gone ↦ rw (gone, select_unregister, select_set) r
      | inr kept ↦ elim (Bool-cases (e == 0)) [
        | inl free ↦ rw (kept, free, select_unregister, select_set) r
        | inr used ↦
            let q' : NoTwice (e ∷ select_set es) = rw (used, select_set) at q in
            let once : registered es e ≡ false = sym (active-select_set e es) ∙ q'.0 in
            let still = registered-select_unregister fd e es in
            rw (kept, used, select_unregister, select_set)
              (active-select_set e (select_unregister fd es) ∙ still ∙ ground (arith, once), r)
      ]
    ]

NoTwice-init : (n : ℕ) → NoTwice (select_set (replicate n 0))
unfolding select_set
NoTwice-init zero = tt
NoTwice-init (suc n) = NoTwice-init n

NoTwice-serve : (rs : List Request) → AddsNew rs → NoTwice (select_set (serve rs))
unfolding serve
NoTwice-serve [] new = NoTwice-init 1024
NoTwice-serve (add fd ∷ rs) new =
    NoTwice-select_register fd (serve rs) (registered-serve rs fd ∙ new.0) (NoTwice-serve rs new.1)
NoTwice-serve (remove fd ∷ rs) new = NoTwice-select_unregister fd (serve rs) (NoTwice-serve rs new)

-- What a wait gives back, if it does not fail.
abbrev pub fds_of : Result (List ℕ) → List ℕ
fds_of (err e) = []
fds_of (ok fds) = fds

-- After any calls that add and remove descriptors, none of which adds one that is in the set, and if
-- `select` counts the descriptors that it finds ready for reading: when `select` has succeeded, a
-- descriptor is active in what `tnfs_event_wait` gives back just if it is one that has been
-- registered and not removed and `select` has found it ready.
pub select_wait-watched :
    (os : Os) (rs : List Request) (t g : ℕ) (io : Io) (sel : Selected)
    → CountsReady os
    → AddsNew rs
    → 0 < g
    → os.select io.calls (select_set (serve rs)) t ≡ ok sel
    → tnfs_event_is_active (fds_of (select_wait os t (serve rs) io).0) g
      ≡ (watched rs g && sel.readable g)
unfolding select_wait
select_wait-watched os rs t g io sel counts new p answer =
    let es = serve rs in
    let fds = ready_fds sel.readable es in
    let counted : length fds ≤ sel.count =
      rw (ready_fds-select_set sel.readable es) at
        (counts io.calls (select_set es) t sel (NoTwice-serve rs new) answer) in
    rw answer (
      active-take sel.count (1024 - length fds) g fds p counted
      ∙ active-ready_fds sel.readable g es
      ∙ ap (λ b. b && sel.readable g) (registered-serve rs g))
