-- ===== src/Config/Lookup.antt =====
-- What a lookup in the configuration finds.
use pinion.Prelude.{
  List, ℕ, ◌++◌, ◌≡◌, ◌∷◌, inl, ◌⊎◌, ap, inr, Bool-cases, ◌==◌, arith, subst, [], refl, ◌↔◌, Option,
  none,
}
use pinion.Config.{read, strcmp, ConfigItem, some}

-- One of two texts begins with the other.
abbrev pub OnePrefix : List ℕ → List ℕ → Type 0
OnePrefix a b = (r : List ℕ) × ((a ++ r ≡ b) ⊎ (b ++ r ≡ a))

OnePrefix-cons : (x : ℕ) (a b : List ℕ) → OnePrefix a b → OnePrefix (x ∷ a) (x ∷ b)
OnePrefix-cons x a b (r, inl e) = (r, inl (ap (λ l. x ∷ l) e))
OnePrefix-cons x a b (r, inr e) = (r, inr (ap (λ l. x ∷ l) e))

to_prefix : (a b : List ℕ) → strcmp a b ≡ 0 → OnePrefix a b
unfolding strcmp
to_prefix [] b e = (b, inl refl)
to_prefix (x ∷ a) [] e = (x ∷ a, inr refl)
to_prefix (x ∷ a) (y ∷ b) e = elim (Bool-cases (x == y)) [
  | inl same ↦
      let eq : x ≡ y = ground arith in
      subst (λ z. OnePrefix (x ∷ a) (z ∷ b)) eq
        (OnePrefix-cons x a b (to_prefix a b (ground arith)))
  | inr other ↦ ground arith
]

to_equal : (a b : List ℕ) → OnePrefix a b → strcmp a b ≡ 0
unfolding strcmp
to_equal [] b p = refl
to_equal (x ∷ a) [] p = refl
to_equal (x ∷ a) (y ∷ b) (r, inl e) =
    let e1 : a ++ r ≡ b = cc in let e2 : x ≡ y = cc in ground (arith, to_equal a b (r, inl e1))
to_equal (x ∷ a) (y ∷ b) (r, inr e) =
    let e1 : b ++ r ≡ a = cc in let e2 : y ≡ x = cc in ground (arith, to_equal a b (r, inr e1))

-- strcmp of config.c gives 0 just where one of the two texts begins with the other.
pub strcmp-OnePrefix : (a b : List ℕ) → (strcmp a b ≡ 0) ↔ OnePrefix a b
strcmp-OnePrefix a b = (to_prefix a b, to_equal a b)

-- The names of an entry count as the names that are looked up.
abbrev pub Matches : ConfigItem → (section property : List ℕ) → Type 0
Matches item section property = OnePrefix item.section section × OnePrefix item.property property

-- No entry counts as the one that is looked up.
abbrev pub Missing : List ConfigItem → (section property : List ℕ) → Type 0
Missing [] section property = Unit {0}
Missing (item ∷ items) section property =
    ¬ Matches item section property × Missing items section property

-- What a lookup may give.
abbrev pub Looked : List ConfigItem → (section property : List ℕ) → Option (List ℕ) → Type 0
Looked items section property none = Missing items section property
Looked items section property (some v) =
    (pre post : List ConfigItem) × (item : ConfigItem) × (items ≡ pre ++ item ∷ post)
    × Missing pre section property
    × Matches item section property
    × (item.value ≡ v)

Looked-here :
    (item : ConfigItem) (items : List ConfigItem) (section property : List ℕ)
    → Matches item section property
    → Looked (item ∷ items) section property (some item.value)
Looked-here item items section property m = ([], items, item, refl, tt, m, refl)

Looked-later :
    (item : ConfigItem) (items : List ConfigItem) (section property : List ℕ) (o : Option (List ℕ))
    → ¬ Matches item section property
    → Looked items section property o
    → Looked (item ∷ items) section property o
Looked-later item items section property none nm missing = (nm, missing)
Looked-later item items section property (some v) nm (pre, post, i, e, missing, m, is) =
    (item ∷ pre, post, i, ap (λ l. item ∷ l) e, (nm, missing), m, is)

-- config_read gives the value of the first entry whose names count as the ones looked up, and
-- NULL where there is none; a name counts where one of the two texts begins with the other.
pub read-Looked :
    (items : List ConfigItem) (section property : List ℕ)
    → Looked items section property (read items section property)
unfolding read
read-Looked [] section property = tt
read-Looked (item ∷ items) section property =
    let later = read-Looked items section property in
    elim (Bool-cases (strcmp item.section section == 0)) [
      | inl a ↦ elim (Bool-cases (strcmp item.property property == 0)) [
        | inl b ↦
            rw (a, b)
              (Looked-here item items section property (
                to_prefix item.section section (ground arith),
                to_prefix item.property property (ground arith),
              ))
        | inr b ↦
            rw (a, b)
              (Looked-later item items section property (read items section property)
                (λ (p, q). ground (arith, to_equal item.property property q)) later)
      ]
      | inr a ↦ rw a (
          Looked-later item items section property (read items section property)
            (λ (p, q). ground (arith, to_equal item.section section p)) later)
    ]
