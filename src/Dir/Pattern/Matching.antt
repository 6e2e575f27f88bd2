-- ===== src/Dir/Pattern/Matching.antt =====
-- src/directory.c, `_pattern_match`: the table decides whether the text matches the pattern.
use tnfsd.Base.{
  ℕ, suc, Bool, true, false, ◌||◌, List, [], ◌∷◌, ◌++◌, ◌==◌, ◌≡◌, ◌∙◌, ◌↔◌, ◌⊎◌, inl, inr, refl,
  ap, sym, arith, if◌then◌else◌, length, get_or, Bool-cases, append-nil,
}
use tnfsd.Dir.Pattern.{accepts, fill_row, first_row, fill_table, pattern_match}

-- The text is, for each '*' any characters, and for each other character of the pattern one that it
-- accepts, one after the other.
unfoldable pub Matches : List ℕ → List ℕ → Type 0
Matches text [] = text ≡ []
Matches text (p ∷ pattern) =
    (((p == b'*') ≡ true)
      × ((some_text : List ℕ) × (rest : List ℕ) × (text ≡ some_text ++ rest)
          × Matches rest pattern))
    ⊎ (((p == b'*') ≡ false)
        × ((c : ℕ) × (rest : List ℕ) × (text ≡ c ∷ rest)
            × (accepts c p ≡ true)
            × Matches rest pattern))

-- The same from the end of both, as the table is filled.
unfoldable ends : List ℕ → List ℕ → Bool
ends [] [] = true
ends [] (p ∷ ps) = let shorter = ends [] ps in if p == b'*' then shorter else false
ends (c ∷ s) [] = false
ends (c ∷ s) (p ∷ ps) =
    let shorter = ends (c ∷ s) ps in
    let absorbed = ends s (p ∷ ps) in
    let both = ends s ps in
    if p == b'*' then shorter || absorbed else if accepts c p then both else false

abbrev onto : List ℕ → List ℕ → List ℕ
onto [] acc = acc
onto (x ∷ xs) acc = onto xs (x ∷ acc)

-- The cells of a row behind the pattern's part `rp`.
unfoldable cells : List ℕ → List ℕ → List ℕ → List Bool
cells rs rp [] = []
cells rs rp (p ∷ ps) = ends rs (p ∷ rp) ∷ cells rs (p ∷ rp) ps

first_row-cells : (rp ps : List ℕ) → first_row ps (ends [] rp) ≡ cells [] rp ps
unfolding first_row cells ends
first_row-cells rp [] = refl
first_row-cells rp (p ∷ ps) = ap (λ l. ends [] (p ∷ rp) ∷ l) (first_row-cells (p ∷ rp) ps)

fill_row-cells :
    (c : ℕ) (rs rp ps : List ℕ)
    → fill_row c ps (ends rs rp ∷ cells rs rp ps) (ends (c ∷ rs) rp) ≡ cells (c ∷ rs) rp ps
unfolding fill_row cells ends
fill_row-cells c rs rp [] = refl
fill_row-cells c rs rp (p ∷ ps) =
    ap (λ l. ends (c ∷ rs) (p ∷ rp) ∷ l) (fill_row-cells c rs (p ∷ rp) ps)

fill_table-cells :
    (src rs ps : List ℕ)
    → fill_table src ps (ends rs [] ∷ cells rs [] ps)
      ≡ ends (onto src rs) [] ∷ cells (onto src rs) [] ps
unfolding fill_table ends
fill_table-cells [] rs ps = refl
fill_table-cells (c ∷ src) rs ps =
    ap (λ l. fill_table src ps (false ∷ l)) (fill_row-cells c rs [] ps)
    ∙ fill_table-cells src (c ∷ rs) ps

get_or-cells :
    (rs rp ps : List ℕ)
    → get_or (ends rs rp ∷ cells rs rp ps) (length ps) false ≡ ends rs (onto ps rp)
unfolding cells
get_or-cells rs rp [] = refl
get_or-cells rs rp (p ∷ ps) = get_or-cells rs (p ∷ rp) ps

ends_some : (text acc : List ℕ) (c : ℕ) → ends (onto text (c ∷ acc)) [] ≡ false
unfolding ends
ends_some [] acc c = refl
ends_some (d ∷ text) acc c = ends_some text (c ∷ acc) d

empty_text : (text : List ℕ) → (length text == 0) ≡ ends (onto text []) []
unfolding ends
empty_text [] = refl
empty_text (c ∷ text) = rw (ends_some text [] c) (ground arith)

whole_table :
    (text ps : List ℕ)
    → fill_table text ps (true ∷ first_row ps true)
      ≡ ends (onto text []) [] ∷ cells (onto text []) [] ps
unfolding ends
whole_table text ps =
    ap (λ l. fill_table text ps (true ∷ l)) (first_row-cells [] ps) ∙ fill_table-cells text [] ps

pattern_match-ends :
    (text pattern : List ℕ) → pattern_match text pattern ≡ ends (onto text []) (onto pattern [])
unfolding pattern_match
pattern_match-ends text [] = empty_text text
pattern_match-ends text (p ∷ ps) =
    let some : (suc (length ps) == 0) ≡ false = ground arith in
    rw (some, pattern_match)
      (ap (λ l. get_or l (suc (length ps)) false) (whole_table text (p ∷ ps))
        ∙ get_or-cells (onto text []) [] (p ∷ ps))

onto-append : (xs ys acc : List ℕ) → onto (xs ++ ys) acc ≡ onto ys (onto xs acc)
onto-append [] ys acc = refl
onto-append (x ∷ xs) ys acc = onto-append xs ys (x ∷ acc)

onto_front : (xs ys acc : List ℕ) → onto xs (ys ++ acc) ≡ onto xs ys ++ acc
onto_front [] ys acc = refl
onto_front (x ∷ xs) ys acc = onto_front xs (x ∷ ys) acc

onto-onto : (xs acc more : List ℕ) → onto (onto xs acc) more ≡ onto acc (xs ++ more)
onto-onto [] acc more = refl
onto-onto (x ∷ xs) acc more = onto-onto xs (x ∷ acc) more

onto_twice : (xs : List ℕ) → onto (onto xs []) [] ≡ xs
onto_twice xs = onto-onto xs [] [] ∙ append-nil xs

-- A '*' at the end takes some of the end of the text.
star_takes :
    (p : ℕ) (s ps : List ℕ)
    → (p == b'*') ≡ true
    → ends s (p ∷ ps) ≡ true
    → (taken : List ℕ) × (left : List ℕ) × (s ≡ taken ++ left) × (ends left ps ≡ true)
unfolding ends
star_takes p [] ps star h = ([], [], refl, rw star at h)
star_takes p (c ∷ s) ps star h = elim (Bool-cases (ends (c ∷ s) ps)) [
  | inl shorter ↦ ([], c ∷ s, refl, shorter)
  | inr not_shorter ↦
      let (taken, left, e, m) = star_takes p s ps star (rw (star, not_shorter) at h) in
      (c ∷ taken, left, ap (λ l. c ∷ l) e, m)
]

-- What is said of the end of a pattern, `rp`: the text whose end it matches, in front of a match, is
-- a match.
abbrev EndFits : List ℕ → Type 0
EndFits rp =
    (rs text pattern : List ℕ)
    → ends rs rp ≡ true
    → Matches text pattern
    → Matches (onto rs text) (onto rp pattern)

module _ (p : ℕ) (rp : List ℕ) (ih : EndFits rp) where
  star_fits : (p == b'*') ≡ true → EndFits (p ∷ rp)
  unfolding Matches
  star_fits star rs text pattern h m =
      let (taken, left, e, g) = star_takes p rs rp star h in
      let here : Matches (onto taken text) (p ∷ pattern) =
        inl (star, (onto taken [], text, onto_front taken [] text, m)) in
      rw (e, onto-append taken left text) (ih left (onto taken text) (p ∷ pattern) g here)

  char_fits : (p == b'*') ≡ false → EndFits (p ∷ rp)
  unfolding Matches ends
  char_fits other [] text pattern h m = absurd (ground arith)
  char_fits other (c ∷ rs) text pattern h m = elim (Bool-cases (accepts c p)) [
    | inl fits ↦
        ih rs (c ∷ text) (p ∷ pattern) (rw (other, fits) at h)
          (inr (other, (c, text, refl, fits, m)))
    | inr differs ↦ absurd (ground arith)
  ]

ends-Matches : (rp : List ℕ) → EndFits rp
unfolding ends
ends-Matches [] [] text pattern h m = m
ends-Matches [] (c ∷ rs) text pattern h m = absurd (ground arith)
ends-Matches (p ∷ rp) rs text pattern h m = elim (Bool-cases (p == b'*')) [
  | inl star ↦ star_fits p rp (ends-Matches rp) star rs text pattern h m
  | inr other ↦ char_fits p rp (ends-Matches rp) other rs text pattern h m
]

take_star :
    (p : ℕ) (xs rs rp : List ℕ)
    → (p == b'*') ≡ true
    → ends rs (p ∷ rp) ≡ true
    → ends (onto xs rs) (p ∷ rp) ≡ true
unfolding ends
take_star p [] rs rp star h = h
take_star p (x ∷ xs) rs rp star h = take_star p xs (x ∷ rs) rp star (grind arith)

-- A '*' may take nothing.
skip_star :
    (p : ℕ) (rs rp : List ℕ) → (p == b'*') ≡ true → ends rs rp ≡ true → ends rs (p ∷ rp) ≡ true
unfolding ends
skip_star p [] rp star h = rw star h
skip_star p (c ∷ rs) rp star h = grind arith

Matches-ends :
    (text pattern rs rp : List ℕ)
    → Matches text pattern
    → ends rs rp ≡ true
    → ends (onto text rs) (onto pattern rp) ≡ true
unfolding Matches ends
Matches-ends text [] rs rp m h = rw m h
Matches-ends text (p ∷ pattern) rs rp (inl (star, (xs, rest, e, m))) h =
    rw (e, onto-append xs rest rs)
      (Matches-ends rest pattern (onto xs rs) (p ∷ rp) m
        (take_star p xs rs rp star (skip_star p rs rp star h)))
Matches-ends text (p ∷ pattern) rs rp (inr (other, (c, rest, e, fits, m))) h =
    rw e (Matches-ends rest pattern (c ∷ rs) (p ∷ rp) m (rw (other, fits, ends) h))

-- The table says yes just where the text matches the pattern, '*' for any characters and '?' for one,
-- letters in either case.
pub pattern_match-Matches :
    (text pattern : List ℕ) → (pattern_match text pattern ≡ true) ↔ Matches text pattern
unfolding ends Matches
pattern_match-Matches text pattern = (
  λ yes_it_does.
      let m =
        ends-Matches (onto pattern []) (onto text []) [] []
          (sym (pattern_match-ends text pattern) ∙ yes_it_does) refl in
      rw (onto_twice text, onto_twice pattern) at m,
  λ m. pattern_match-ends text pattern ∙ Matches-ends text pattern [] [] m refl,
)
