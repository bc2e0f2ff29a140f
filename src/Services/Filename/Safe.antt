-- ===== src/Services/Filename/Safe.antt =====
-- What a sanitized filename looks like, whatever the client sent.
use pack_verse.Base.{
  ℕ, zero, suc, keep, ltb, ◌≤◌, ◌≡◌, refl, Bool, true, false, List, [], ◌∷◌, All, length, take,
  length-take, arith, inl, inr, Bool-cases,
}
use Prim.Native.Char.{Char, code}
use pack_verse.Services.Filename.{
  is_safe, is_edge, path_name, sub_unsafe, strip_left, attach, strip_right, or_file,
  max_filename_length, sanitize_filename,
}

abbrev pub Safe : List Char → Type 0
Safe cs = All (λ c. is_safe c ≡ true) cs

-- The name is not empty and does not begin with a dot or an underscore.
abbrev pub Begins : List Char → Type 0
Begins [] = ⊥
Begins (c ∷ cs) = is_edge c ≡ false

sub_unsafe-Safe : (in_run : Bool) (cs : List Char) → Safe (sub_unsafe in_run cs)
sub_unsafe-Safe in_run [] = tt
sub_unsafe-Safe true (c ∷ cs) = elim (Bool-cases (is_safe c)) [
  | inl h ↦ rw h (h, sub_unsafe-Safe false cs)
  | inr h ↦ rw h (sub_unsafe-Safe true cs)
]
sub_unsafe-Safe false (c ∷ cs) = elim (Bool-cases (is_safe c)) [
  | inl h ↦ rw h (h, sub_unsafe-Safe false cs)
  | inr h ↦ rw h (refl, sub_unsafe-Safe true cs)
]

-- Empty, or as a name begins.
abbrev pub Stripped : List Char → Type 0
Stripped [] = Unit
Stripped (c ∷ cs) = is_edge c ≡ false

strip_left-Safe : (cs : List Char) → Safe cs → Safe (strip_left cs) × Stripped (strip_left cs)
strip_left-Safe [] h = (tt, tt)
strip_left-Safe (c ∷ cs) h = elim (Bool-cases (is_edge c)) [
  | inl e ↦ rw e (strip_left-Safe cs h.1)
  | inr e ↦ rw e (h, e)
]

attach-Safe : (c : Char) (cs : List Char) → is_safe c ≡ true → Safe cs → Safe (attach c cs)
attach-Safe c [] h k = elim (Bool-cases (is_edge c)) [ inl e ↦ rw e tt | inr e ↦ rw e (h, tt) ]
attach-Safe c (d ∷ ds) h k = (h, k)

attach-Stripped : (c : Char) (cs : List Char) → is_edge c ≡ false → Stripped (attach c cs)
attach-Stripped c [] h = rw h h
attach-Stripped c (d ∷ ds) h = h

strip_right-Safe : (cs : List Char) → Safe cs → Safe (strip_right cs)
strip_right-Safe [] h = tt
strip_right-Safe (c ∷ cs) h = attach-Safe c (strip_right cs) h.0 (strip_right-Safe cs h.1)

strip_right-Stripped : (cs : List Char) → Stripped cs → Stripped (strip_right cs)
strip_right-Stripped [] h = tt
strip_right-Stripped (c ∷ cs) h = attach-Stripped c (strip_right cs) h

or_file-Safe : (cs : List Char) → Safe cs → Stripped cs → Safe (or_file cs) × Begins (or_file cs)
or_file-Safe [] h k = ((refl, (refl, (refl, (refl, tt)))), refl)
or_file-Safe (c ∷ cs) h k = (h, k)

take-Safe : (n : ℕ) (cs : List Char) → Safe cs → Safe (take n cs)
take-Safe zero cs h = tt
take-Safe (suc n) [] h = tt
take-Safe (suc n) (c ∷ cs) h = (h.0, take-Safe n cs h.1)

take-Begins : (n : ℕ) (cs : List Char) → Begins cs → Begins (take (suc n) cs)
take-Begins n [] h = h
take-Begins n (c ∷ cs) h = h

-- Whatever name a client sends, the sanitized one has at most 255 characters and at least one, all
-- of them letters, digits, dots, underscores or dashes, and does not begin with a dot or underscore.
pub sanitize_filename-Safe :
    (normalize : List Char → List Char) (original : List Char)
    → let name = sanitize_filename normalize original in
      Safe name × Begins name × (length name ≤ max_filename_length)
unfolding sanitize_filename
sanitize_filename-Safe normalize original =
    let base = path_name (keep (λ c. ltb (code c) 128) (normalize original)) in
    let (safe, stripped) = strip_left-Safe _ (sub_unsafe-Safe false base) in
    let (safe', begins) =
      or_file-Safe _ (strip_right-Safe _ safe) (strip_right-Stripped _ stripped) in
    (
      take-Safe max_filename_length _ safe',
      take-Begins 254 _ begins,
      omega (arith, length-take max_filename_length (or_file _)),
    )
