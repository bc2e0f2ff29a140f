-- ===== src/Workflows/Definition/Sorting.antt =====
-- The sort of the steps by their order, between the two passes of the parser.
use pack_verse.Base.{
  suc, length, ◌≡◌, ◌≢◌, refl, sym, ap, ◌∙◌, String, true, false, List, [], ◌∷◌, map, string_eq,
  All, All-map, arith, Bool-cases, inl, inr,
}
use pack_verse.Base.Int.{ℤ, leb_ℤ, ltb_ℤ, ℤ_eq, beq_ℤ_iff}
use pack_verse.Workflows.Definition.{WorkflowStepSpec, Entry, insert_by_order, sort_by_order}

abbrev pub key : WorkflowStepSpec → ℤ × String
key s = (s.order, s.step_id)

abbrev pub entry_key : Entry → ℤ × String
entry_key e = (e.order, e.step_id)

abbrev pub Precedes : ℤ × String → ℤ × String → Type 0
Precedes a b = (ltb_ℤ a.0 b.0 ≡ true) × (b.1 ≢ a.1)

abbrev pub Differs : Entry → Entry → Type 0
Differs a b = (a.order ≢ b.order) × (a.step_id ≢ b.step_id)

abbrev pub AreApart : List Entry → Type 0
AreApart [] = Unit
AreApart (e ∷ es) = All (Differs e) es × AreApart es

abbrev pub AreSorted : List Entry → Type 0
AreSorted [] = Unit
AreSorted (e ∷ es) = All (λ x. Precedes (entry_key e) (entry_key x)) es × AreSorted es

All-insert_by_order :
    (P : Entry → Type 0) (e : Entry) (es : List Entry)
    → P e
    → All P es
    → All P (insert_by_order e es)
All-insert_by_order P e [] p ps = (p, tt)
All-insert_by_order P e (x ∷ xs) p ps = elim (Bool-cases (leb_ℤ e.order x.order)) [
  | inl h ↦ rw h (p, ps)
  | inr h ↦ rw h (ps.0, All-insert_by_order P e xs p ps.1)
]

All-sort_by_order : (P : Entry → Type 0) (es : List Entry) → All P es → All P (sort_by_order es)
All-sort_by_order P [] h = tt
All-sort_by_order P (e ∷ es) h =
    All-insert_by_order P e (sort_by_order es) h.0 (All-sort_by_order P es h.1)

ltb_leb : (a b : ℤ) → leb_ℤ a b ≡ true → a ≢ b → ltb_ℤ a b ≡ true
ltb_leb a b h d = ground (arith, beq_ℤ_iff a b)

ltb_not_leb : (a b : ℤ) → leb_ℤ a b ≡ false → ltb_ℤ b a ≡ true
ltb_not_leb a b h = ground arith

ltb_trans : (a b c : ℤ) → ltb_ℤ a b ≡ true → ltb_ℤ b c ≡ true → ltb_ℤ a c ≡ true
ltb_trans a b c h k = ground arith

before-All :
    (e x : Entry) (xs : List Entry)
    → ltb_ℤ e.order x.order ≡ true
    → All (λ y. Precedes (entry_key x) (entry_key y)) xs
    → All (Differs e) xs
    → All (λ y. Precedes (entry_key e) (entry_key y)) xs
before-All e x [] h p d = tt
before-All e x (y ∷ ys) h p d =
    ((ltb_trans e.order x.order y.order h p.0.0, λ q. d.0.1 (sym q)), before-All e x ys h p.1 d.1)

insert_by_order-AreSorted :
    (e : Entry) (es : List Entry)
    → All (Differs e) es
    → AreSorted es
    → AreSorted (insert_by_order e es)
insert_by_order-AreSorted e [] d s = (tt, tt)
insert_by_order-AreSorted e (x ∷ xs) d s = elim (Bool-cases (leb_ℤ e.order x.order)) [
  | inl h ↦
      let first = ltb_leb e.order x.order h d.0.0 in
      rw h (((first, λ q. d.0.1 (sym q)), before-All e x xs first s.0 d.1), s)
  | inr h ↦ rw h (
    All-insert_by_order _ e xs (ltb_not_leb e.order x.order h, d.0.1) s.0,
    insert_by_order-AreSorted e xs d.1 s.1,
  )
]

pub sort_by_order-AreSorted : (es : List Entry) → AreApart es → AreSorted (sort_by_order es)
sort_by_order-AreSorted [] h = tt
sort_by_order-AreSorted (e ∷ es) h =
    insert_by_order-AreSorted e (sort_by_order es) (All-sort_by_order (Differs e) es h.0)
      (sort_by_order-AreSorted es h.1)

length-insert_by_order :
    (e : Entry) (es : List Entry) → length (insert_by_order e es) ≡ suc (length es)
length-insert_by_order e [] = refl
length-insert_by_order e (x ∷ xs) = elim (Bool-cases (leb_ℤ e.order x.order)) [
  | inl h ↦ rw h refl
  | inr h ↦ rw h (ap suc (length-insert_by_order e xs))
]

pub length-sort_by_order : (es : List Entry) → length (sort_by_order es) ≡ length es
length-sort_by_order [] = refl
length-sort_by_order (e ∷ es) =
    length-insert_by_order e (sort_by_order es) ∙ ap suc (length-sort_by_order es)

-- the keys of a sequence of steps, each before all that follow
abbrev pub AreAscending : List (ℤ × String) → Type 0
AreAscending [] = Unit
AreAscending (k ∷ ks) = All (Precedes k) ks × AreAscending ks

pub AreSorted-AreAscending : (es : List Entry) → AreSorted es → AreAscending (map entry_key es)
AreSorted-AreAscending [] h = tt
AreSorted-AreAscending (e ∷ es) h =
    (All-map (Precedes (entry_key e)) entry_key es h.0, AreSorted-AreAscending es h.1)
