-- ===== src/Path/Confinement.antt =====
-- src/tnfs_file.c, `tnfs_valid_filename`: the path that a request's file name stands for lies under
-- the root of the session.
use tnfsd.Base.{
  ℕ, false, none, some, Option-cases, List, [], ◌∷◌, ◌++◌, ◌-◌, ◌<◌, ◌==◌, ◌≡◌, refl, sym, ap, ◌∙◌,
  arith, length, take, drop, All, inl, inr, Bool-cases, bytes_eq, strstr, eq_of_bytes_eq,
  strstr-append_false, take-append-drop, append_assoc, append-nil, take-of_le, take-append_long,
  ◌+◌, ◌≤◌, ltb, length-take,
}
use tnfsd.Tnfs.{Config, Session, Buf, last_byte, string_at, max_filepath}
use tnfsd.Strl.{strlcat, strlcat-take}
use tnfsd.Path.{root_of, get_root, normalize_path, tnfs_valid_filename, dotdot}
use tnfsd.Path.Components.{components, parts_from, close_part, components-normalize_path}

-- None of the components is "..".
abbrev pub NoneClimbs : List (List ℕ) → Type 0
NoneClimbs = All (λ c. bytes_eq c dotdot ≡ false)

close_part-append :
    (part : List ℕ) (l m : List (List ℕ)) → close_part part l ++ m ≡ close_part part (l ++ m)
close_part-append [] l m = refl
close_part-append (c ∷ cs) l m = refl

parts_from-append :
    (a b part : List ℕ) → parts_from part (a ++ (b'/' ∷ b)) ≡ parts_from part a ++ parts_from [] b
unfolding parts_from
parts_from-append [] b part = sym (close_part-append part [] (parts_from [] b))
parts_from-append (c ∷ cs) b part = elim (Bool-cases (c == b'/')) [
  | inl e ↦ rw e (
      ap (close_part part) (parts_from-append cs b [])
      ∙ sym (close_part-append part (parts_from [] cs) (parts_from [] b)))
  | inr e ↦ rw e (parts_from-append cs b (part ++ (c ∷ [])))
]

dotdot_found : strstr dotdot dotdot ≡ false → ⊥
unfolding strstr
dotdot_found h = cc

not_dotdot : (part : List ℕ) → strstr part dotdot ≡ false → bytes_eq part dotdot ≡ false
not_dotdot part h = elim (Bool-cases (bytes_eq part dotdot)) [
  | inl e ↦ absurd (clash (eq_of_bytes_eq part dotdot e))
  | inr e ↦ e
]
  where
    clash : part ≡ dotdot → ⊥
    clash e = dotdot_found (rw e at h)

close_part-NoneClimbs :
    (part : List ℕ) (l : List (List ℕ))
    → strstr part dotdot ≡ false
    → NoneClimbs l
    → NoneClimbs (close_part part l)
close_part-NoneClimbs [] l h v = v
close_part-NoneClimbs (c ∷ cs) l h v = (not_dotdot (c ∷ cs) h, v)

parts_from-NoneClimbs :
    (p part : List ℕ) → strstr (part ++ p) dotdot ≡ false → NoneClimbs (parts_from part p)
unfolding parts_from
parts_from-NoneClimbs [] part h =
    close_part-NoneClimbs part [] (strstr-append_false part [] dotdot h).0 tt
parts_from-NoneClimbs (c ∷ cs) part h = elim (Bool-cases (c == b'/')) [
  | inl e ↦ rw e (
      close_part-NoneClimbs part (parts_from [] cs) (strstr-append_false part (c ∷ cs) dotdot h).0 (
        parts_from-NoneClimbs cs []
          (strstr-append_false (c ∷ []) cs dotdot
            (strstr-append_false part (c ∷ cs) dotdot h).1).1))
  | inr e ↦ rw e (
      parts_from-NoneClimbs cs (part ++ (c ∷ []))
        (ap (λ s. strstr s dotdot) (append_assoc part (c ∷ []) cs) ∙ h))
]

NoneClimbs-take :
    (n : ℕ) (f : List ℕ) → strstr f dotdot ≡ false → NoneClimbs (components (take n f))
unfolding components
NoneClimbs-take n f h =
    parts_from-NoneClimbs (take n f) []
      (strstr-append_false (take n f) (drop n f) dotdot
        (ap (λ s. strstr s dotdot) (take-append-drop n f) ∙ h)).0

-- `root_of` ends in a slash.
root_dir : Config → Session → List ℕ
root_dir conf s = elim s.root [ none ↦ conf.root | some r ↦ conf.root ++ (b'/' ∷ r) ]

root_of-root_dir : (conf : Config) (s : Session) → root_of conf s ≡ root_dir conf s ++ (b'/' ∷ [])
unfolding root_of root_dir
root_of-root_dir conf s = elim (Option-cases s.root) [
  | inl e ↦ rw e
  | inr (r, e) ↦ rw e (sym (append_assoc conf.root (b'/' ∷ r) (b'/' ∷ [])))
]

components-root :
    (conf : Config) (s : Session) (f : List ℕ)
    → components (root_of conf s ++ f) ≡ components (root_of conf s) ++ components f
unfolding components
components-root conf s f =
    let d = root_dir conf s in
    let slash : List ℕ = b'/' ∷ [] in
    let nothing : parts_from [] (d ++ slash) ≡ parts_from [] d =
      parts_from-append d [] [] ∙ append-nil (parts_from [] d) in
    rw (root_of-root_dir conf s) (
      ap (parts_from []) (append_assoc d slash f)
      ∙ parts_from-append d f []
      ∙ ap (λ l. l ++ parts_from [] f) (sym nothing))

-- As much of a file name as fits behind the root of the session.
abbrev pub fitting : Config → Session → List ℕ → List ℕ
fitting conf s f = take (383 - length (root_of conf s)) f

joined :
    (conf : Config) (s : Session) (f : List ℕ)
    → length (root_of conf s) < 384
    → strlcat (get_root conf s max_filepath) f max_filepath ≡ root_of conf s ++ fitting conf s f
unfolding get_root
joined conf s f h =
    let r = root_of conf s in
    rw (take-of_le 383 r (omega arith), strlcat-take r f 384 h)
      (ap (λ k. take k (r ++ f)) (split (length r) h) ∙ take-append_long r f (383 - length r))
  where
    split : (n : ℕ) → n < 384 → 383 ≡ n + (383 - n)
    split n h = omega arith

-- What the path of an accepted file name is.
accepted_path :
    (conf : Config) (s : Session) (b : Buf) (i : ℕ) (path : List ℕ)
    → tnfs_valid_filename conf s b i ≡ some path
    → (normalize_path
          (strlcat (get_root conf s max_filepath) (string_at b i) max_filepath)
          max_filepath
        ≡ path)
      × (strstr (string_at b i) dotdot ≡ false)
unfolding tnfs_valid_filename
accepted_path conf s b i path e = elim (Bool-cases (last_byte b == 0)) [
  | inl ended ↦ elim (Bool-cases (strstr (string_at b i) dotdot)) [
    | inl climbs ↦ absurd (ground arith)
    | inr stays ↦ (ground arith, stays)
  ]
  | inr open_ended ↦ absurd (ground arith)
]

-- A file name that `tnfs_valid_filename` accepts, for a session whose root fits the path buffer,
-- gives a path whose components are those of the root, followed by those of the file name, or of as
-- much of it as fits; and none of the latter is "..".
pub tnfs_valid_filename-components :
    (conf : Config) (s : Session) (b : Buf) (i : ℕ) {path : List ℕ}
    → length (root_of conf s) < 384
    → tnfs_valid_filename conf s b i ≡ some path
    → (components path ≡ components (root_of conf s) ++ components (fitting conf s (string_at b i)))
      × NoneClimbs (components (fitting conf s (string_at b i)))
tnfs_valid_filename-components conf s b i {path} h e =
    let a = accepted_path conf s b i path e in (names a.0, contained a.1)
  where
    f : List ℕ
    f = string_at b i

    full : List ℕ
    full = strlcat (get_root conf s max_filepath) f max_filepath

    names :
        normalize_path full max_filepath ≡ path
        → components path ≡ components (root_of conf s) ++ components (fitting conf s f)
    names e =
        ap components (sym e)
        ∙ components-normalize_path full max_filepath (omega arith)
        ∙ ap components (joined conf s f h)
        ∙ components-root conf s (fitting conf s f)

    contained : strstr f dotdot ≡ false → NoneClimbs (components (fitting conf s f))
    contained q = NoneClimbs-take (383 - length (root_of conf s)) f q

get_root-fits :
    (conf : Config) (s : Session)
    → length (root_of conf s) < 384
    → get_root conf s max_filepath ≡ root_of conf s
unfolding get_root
get_root-fits conf s h = take-of_le 383 (root_of conf s) (omega arith)

-- A root that fills the buffer leaves no room for a file name.
joined_full :
    (conf : Config) (s : Session) (f : List ℕ)
    → 384 ≤ length (root_of conf s)
    → strlcat (get_root conf s max_filepath) f max_filepath ≡ get_root conf s max_filepath
unfolding get_root
joined_full conf s f h =
    let g = take 383 (root_of conf s) in
    let n : length g ≡ 383 = omega (arith, length-take 383 (root_of conf s)) in
    let room : 383 ≡ length g + 0 = omega (arith, n) in
    rw (strlcat-take g f 384 (omega (arith, n)))
      (ap (λ k. take k (g ++ f)) room ∙ take-append_long g f 0 ∙ append-nil g)

-- Whatever the length of the root is: the components of an accepted path are those of the root, as
-- much of it as fits the buffer, and others, none of which is "..".
pub tnfs_valid_filename-below :
    (conf : Config) (s : Session) (b : Buf) (i : ℕ) (path : List ℕ)
    → tnfs_valid_filename conf s b i ≡ some path
    → ((below : List (List ℕ)) × (components path
          ≡ components (get_root conf s max_filepath) ++ below)
        × NoneClimbs below)
tnfs_valid_filename-below conf s b i path e =
    elim (Bool-cases (ltb (length (root_of conf s)) 384)) [
      | inl fits ↦
          let q = tnfs_valid_filename-components conf s b i (ground arith) e in
          (_, rw (whole (ground arith)) q.0, q.1)
      | inr long ↦ ([], full (ground arith) ∙ sym (append-nil _), tt)
    ]
  where
    whole : length (root_of conf s) < 384 → get_root conf s max_filepath ≡ root_of conf s
    whole h = get_root-fits conf s h

    full :
        384 ≤ length (root_of conf s) → components path ≡ components (get_root conf s max_filepath)
    full h =
        let f = string_at b i in
        ap components (sym (accepted_path conf s b i path e).0)
        ∙ components-normalize_path (strlcat (get_root conf s max_filepath) f max_filepath)
            max_filepath (omega arith)
        ∙ ap components (joined_full conf s f h)
