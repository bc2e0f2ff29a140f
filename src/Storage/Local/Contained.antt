-- ===== src/Storage/Local/Contained.antt =====
-- No key leads out of the root of the storage.
use pack_verse.Base.{
  ◌≡◌, refl, String, Bool, true, ◌&&◌, ◌||◌, List, [], ◌∷◌, ◌++◌, Bool-cases, inl, inr, arith,
  Ensures, ℕ, ◌==◌, ℕ_eq,
}
use Prim.Native.Char.{code}
use text.Mathlib.TextEquality.{Char-path}
use pack_verse.Services.Filename.{chars}
use pack_verse.Storage.Local.{
  Faults, Name, FilePath, same_name, is_within, is_absolute, has_parent, parts, check_within,
  resolve,
}

and_left : (a b : Bool) → a && b ≡ true → a ≡ true
and_left a b h = ground arith

and_right : (a b : Bool) → a && b ≡ true → b ≡ true
and_right a b h = ground arith

pub same_name-eq : (a b : Name) → same_name a b ≡ true → a ≡ b
same_name-eq [] [] h = refl
same_name-eq [] (d ∷ ds) h = absurd (ground arith)
same_name-eq (c ∷ cs) [] h = absurd (ground arith)
same_name-eq (c ∷ cs) (d ∷ ds) h =
    let heads : c ≡ d =
      Char-path c d ((ℕ_eq.same_iff _ _).0 (and_left (code c == code d) (same_name cs ds) h)) in
    let tails = same_name-eq cs ds (and_right (code c == code d) (same_name cs ds) h) in
    cc (heads, tails)

-- A path below the root, or the root.
abbrev pub Within : FilePath → FilePath → Type 0
Within root path = (rest : FilePath) × (path ≡ root ++ rest)

is_within-Within : (root path : FilePath) → is_within root path ≡ true → Within root path
is_within-Within [] path h = (path, refl)
is_within-Within (r ∷ root) [] h = absurd (ground arith)
is_within-Within (r ∷ root) (p ∷ path) h =
    let head = same_name-eq r p (and_left (same_name r p) (is_within root path) h) in
    let (rest, e) =
      is_within-Within root path (and_right (same_name r p) (is_within root path) h) in
    (rest, cc (head, e))

module _ (root : FilePath) (follow : FilePath → FilePath) (faults : Faults)
    (sha256 : List ℕ → String) where
  check_within-Within :
      (key : String) (candidate : FilePath)
      → Ensures (Within root) (check_within root follow faults sha256 key candidate)
  check_within-Within key candidate = elim (Bool-cases (is_within root candidate)) [
    | inl h ↦ rw h (is_within-Within root candidate h)
    | inr h ↦ rw h tt
  ]

  -- Whatever the key, and wherever links lead, a path that the backend works on is the root of the
  -- storage or below it.
  pub resolve-Within :
      (key : String) → Ensures (Within root) (resolve root follow faults sha256 key)
  unfolding resolve
  resolve-Within key =
      elim (Bool-cases (is_absolute (chars key) || has_parent (parts (chars key)))) [
        | inl h ↦ rw h tt
        | inr h ↦ rw h (check_within-Within key (follow (root ++ parts (chars key))))
      ]
