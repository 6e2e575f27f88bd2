-- ===== src/Dir/Pattern.antt =====
-- src/directory.c, `_pattern_match`: names against a pattern with '*' and '?', by a table. A row of
-- the table is a list of cells.
pub mod Matching
use tnfsd.Base.{ℕ, Bool, true, false, ◌||◌, List, [], ◌∷◌, ◌==◌, if◌then◌else◌, length, get_or}
use tnfsd.Atari.{tolower}

-- Does a character of the text match one of the pattern that is not '*'?
unfoldable pub accepts : ℕ → ℕ → Bool
unfolding tolower
accepts c p = p == b'?' || (c == p || tolower c == tolower p)

-- One row of the table of `_pattern_match`, from the row above it; `left` is the cell just filled.
unfoldable pub fill_row : ℕ → List ℕ → List Bool → Bool → List Bool
unfolding accepts
fill_row c (p ∷ ps) (diagonal ∷ above ∷ row) left =
    let v = if p == b'*' then left || above else if accepts c p then diagonal else false in
    v ∷ fill_row c ps (above ∷ row) v
fill_row c pattern row left = []

-- the row of the empty text
unfoldable pub first_row : List ℕ → Bool → List Bool
first_row [] left = []
first_row (p ∷ ps) left = let v = if p == b'*' then left else false in v ∷ first_row ps v

unfoldable pub fill_table : List ℕ → List ℕ → List Bool → List Bool
unfolding fill_row
fill_table [] pattern row = row
fill_table (c ∷ src) pattern row = fill_table src pattern (false ∷ fill_row c pattern row false)

-- `lookup[n][m]`
unfoldable pub pattern_match : List ℕ → List ℕ → Bool
unfolding fill_table first_row
pattern_match src pattern =
    if length pattern == 0
    then length src == 0
    else get_or (fill_table src pattern (true ∷ first_row pattern true)) (length pattern) false
