-- ===== src/Server/Event/Select/Registered.antt =====
-- src/event_select.c: the table of descriptors against the set of those that are registered.
use tnfsd.Base.{
  ℕ, zero, suc, Bool, false, not, ◌&&◌, ◌||◌, ◌==◌, ltb, leb, ◌<◌, List, [], ◌∷◌, ◌≡◌, ◌∙◌, refl,
  ap, arith, inl, inr, Bool-cases, length, All, replicate,
}
use tnfsd.Server.Event.Select.{EventFdList, select_init, select_register, select_unregister}

-- Does a slot in use hold the descriptor?
abbrev pub registered : EventFdList → ℕ → Bool
registered [] g = false
registered (e ∷ es) g = (not (e == 0) && e == g) || registered es g

abbrev pub has_free : EventFdList → Bool
has_free [] = false
has_free (e ∷ es) = e == 0 || has_free es

-- What the daemon asks for, the latest first.
pub data Request : Type 0 where
  add remove : ℕ → Request

unfoldable pub serve : List Request → EventFdList
serve [] = select_init
serve (Request.add fd ∷ rs) = (select_register fd (serve rs)).1
serve (Request.remove fd ∷ rs) = select_unregister fd (serve rs)

abbrev accepted : ℕ → List Request → Bool
accepted fd rs = (select_register fd (serve rs)).0

-- The set of the descriptors: what is added is in it if the call has returned true, until it is
-- removed.
unfoldable pub watched : List Request → ℕ → Bool
watched [] g = false
watched (Request.add fd ∷ rs) g = (accepted fd rs && (not (g == 0) && g == fd)) || watched rs g
watched (Request.remove fd ∷ rs) g = not (g == fd) && watched rs g

-- A table of `n` slots, with no number that a set has no bit for.
abbrev pub Fits : ℕ → EventFdList → Type 0
Fits n es = (length es ≡ n) × All (λ e. e < 1024) es

pub registered-select_register :
    (fd g : ℕ) (es : EventFdList)
    → let r = select_register fd es in
      registered r.1 g ≡ ((r.0 && (not (g == 0) && g == fd)) || registered es g)
unfolding select_register
registered-select_register fd g [] = refl
registered-select_register fd g (e ∷ es) = grind (arith, registered-select_register fd g es)

select_register-has_free :
    (fd : ℕ) (es : EventFdList) → (select_register fd es).0 ≡ (has_free es && ltb fd 1024)
unfolding select_register
select_register-has_free fd [] = refl
select_register-has_free fd (e ∷ es) = grind (arith, select_register-has_free fd es)

pub registered-select_unregister :
    (fd g : ℕ) (es : EventFdList)
    → registered (select_unregister fd es) g ≡ (not (g == fd) && registered es g)
unfolding select_unregister
registered-select_unregister fd g [] = ground arith
registered-select_unregister fd g (e ∷ es) = grind (arith, registered-select_unregister fd g es)

registered-init : (n g : ℕ) → registered (replicate n 0) g ≡ false
registered-init zero g = refl
registered-init (suc n) g = registered-init n g

pub registered-serve : (rs : List Request) (g : ℕ) → registered (serve rs) g ≡ watched rs g
unfolding serve watched
registered-serve [] g = registered-init 1024 g
registered-serve (Request.add fd ∷ rs) g =
    registered-select_register fd g (serve rs)
    ∙ ap (λ b. (accepted fd rs && (not (g == 0) && g == fd)) || b) (registered-serve rs g)
registered-serve (Request.remove fd ∷ rs) g =
    registered-select_unregister fd g (serve rs)
    ∙ ap (λ b. not (g == fd) && b) (registered-serve rs g)

init-Fits : (n : ℕ) → Fits n (replicate n 0)
init-Fits zero = (refl, tt)
init-Fits (suc n) = let q = init-Fits n in (ap suc q.0, (omega arith, q.1))

select_register-Fits : (fd n : ℕ) (es : EventFdList) → Fits n es → Fits n (select_register fd es).1
unfolding select_register
select_register-Fits fd n [] q = q
select_register-Fits fd zero (e ∷ es) q = absurd (omega (arith, q.0))
select_register-Fits fd (suc n) (e ∷ es) q =
    let r = select_register-Fits fd n es (omega (arith, q.0), q.1.1) in
    elim (Bool-cases (e == 0)) [
      | inl free ↦ elim (Bool-cases (leb 1024 fd)) [
        | inl high ↦ rw (free, high, select_register) q
        | inr low ↦ rw (free, low, select_register) (q.0, (ground arith, q.1.1))
      ]
      | inr used ↦ rw (used, select_register) (ap suc r.0, (q.1.0, r.1))
    ]

select_unregister-Fits :
    (fd n : ℕ) (es : EventFdList) → Fits n es → Fits n (select_unregister fd es)
unfolding select_unregister
select_unregister-Fits fd n [] q = q
select_unregister-Fits fd zero (e ∷ es) q = absurd (omega (arith, q.0))
select_unregister-Fits fd (suc n) (e ∷ es) q =
    let r = select_unregister-Fits fd n es (omega (arith, q.0), q.1.1) in
    (ap suc r.0, (grind (arith, q.1.0), r.1))

serve-Fits : (rs : List Request) → Fits 1024 (serve rs)
unfolding serve
serve-Fits [] = init-Fits 1024
serve-Fits (Request.add fd ∷ rs) = select_register-Fits fd 1024 (serve rs) (serve-Fits rs)
serve-Fits (Request.remove fd ∷ rs) = select_unregister-Fits fd 1024 (serve rs) (serve-Fits rs)

-- After any calls that add and remove descriptors, from the empty table on: the slots in use hold
-- those that have been added with success and not removed since, and no other; the table still has
-- its 1024 slots, and each number in it is below FD_SETSIZE, so that none is put beyond the set's
-- end. Adding one succeeds just if a slot is free and the number is below FD_SETSIZE.
pub registered-watched :
    (rs : List Request) (fd g : ℕ)
    → (registered (serve rs) g ≡ watched rs g)
      × Fits 1024 (serve rs)
      × ((select_register fd (serve rs)).0 ≡ (has_free (serve rs) && ltb fd 1024))
registered-watched rs fd g =
    (registered-serve rs g, serve-Fits rs, select_register-has_free fd (serve rs))
