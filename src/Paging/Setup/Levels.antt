-- ===== src/Paging/Setup/Levels.antt =====
-- The first tables make a tree.
use pinion.Prelude.{
  ℕ, if◌then◌else◌, ◌%◌, ◌≡◌, ◌==◌, ◌+◌, ◌*◌, ltb, ◌≤◌, ◌&&◌, ◌^◌, test_bit, suc, ◌-◌, true, ◌⊎◌,
  ◌<◌, arith, false, sym, Bool-cases, ap, inl, ◌∙◌, inr, ◌/◌, ◌≢◌,
}
use pinion.Machine.{Ptr}
use pinion.Paging.{virtual_base, table_of, pf_pres, pf_large}
use pinion.Paging.Setup.{entry_of, window_entry}
use pinion.Paging.Setup.Entries.{entry_of-table, window_entry-large}
use pinion.Paging.Setup.Tables.{Mapped}
use pinion.Paging.Tree.{Tree}

-- The root, the tables of level 3 behind it, and the one of the window.
abbrev pub first_level : Ptr → Ptr → ℕ
first_level root q =
    if q == root
    then 4
    else if q == root + 0x1000 * 257
    then 2
    else if ltb root q && ltb q (root + 0x1000 * 257) && (q - root) % 0x1000 == 0
    then 3
    else 0

module _ (a : ℕ) (aligned : a % 0x1000 ≡ 0) (low : a + 0x1000 * 258 ≤ 2 ^ 29) (pages : Ptr → ℕ → ℕ)
    (m : Mapped (a + virtual_base) pages) where
  abbrev root : Ptr
  root = a + virtual_base

  -- The entries that lead to a table: those of the upper half of the root, and the last one of level 3.
  Leads : (q : Ptr) (j : ℕ) → Type 0
  Leads q j =
      ((q ≡ root) × (256 ≤ j) × (table_of (pages q j) ≡ root + 0x1000 * (j - 255)))
      ⊎ ((q ≡ root + 0x1000 * 256) × (j ≡ 511) × (table_of (pages q j) ≡ root + 0x1000 * 257))

  zero_absent : (q : Ptr) (j : ℕ) → pages q j ≡ 0 → test_bit (pages q j) pf_pres ≡ true → ⊥
  zero_absent q j zeros there = ground (arith, sym (ap (λ w. test_bit w pf_pres) zeros) ∙ there)

  Leads-root :
      (q : Ptr) (j : ℕ) → q ≡ root → j < 512 → test_bit (pages q j) pf_pres ≡ true → Leads q j
  unfolding Leads
  Leads-root q j at small there = elim (Bool-cases (ltb j 256)) [
    | inl lower ↦
        absurd (zero_absent q j (ap (λ q. pages q j) at ∙ m.lower j (ground (arith, lower))) there)
    | inr upper ↦
        let high : 256 ≤ j = ground (arith, upper) in
        let word : pages q j ≡ entry_of (a + 0x1000 * (j - 255) + virtual_base) =
          ap (λ q. pages q j) at
          ∙ ap (pages root) (omega arith)
          ∙ m.upper (j - 256) (omega arith)
          ∙ ap entry_of (omega arith) in
        inl (
          at,
          high,
          ap table_of word
              ∙ entry_of-table (a + 0x1000 * (j - 255)) (omega arith) (omega arith)
              ∙ omega arith,
        )
  ]

  Leads-third :
      (q : Ptr) (j i : ℕ)
      → i < 256
      → q ≡ root + 0x1000 * (i + 1)
      → j < 512
      → test_bit (pages q j) pf_pres ≡ true
      → Leads q j
  unfolding Leads
  Leads-third q j i range at small there = elim (Bool-cases (i == 255)) [
    | inr few ↦
        absurd
          (zero_absent q j (ap (λ q. pages q j) at ∙ m.empty i j (ground (arith, few)) small) there)
    | inl end ↦
        let last : q ≡ root + 0x1000 * 256 = ground (arith, end) in
        elim (Bool-cases (j == 511)) [
          | inr before ↦
              absurd (
                zero_absent q j (ap (λ q. pages q j) last ∙ m.last j (ground (arith, before)))
                  there)
          | inl here ↦
              let is : j ≡ 511 = ground (arith, here) in
              let word : pages q j ≡ entry_of (a + 0x1000 * 257 + virtual_base) =
                ap (λ q. pages q j) last
                ∙ ap (pages (root + 0x1000 * 256)) is
                ∙ m.window
                ∙ ap entry_of (omega arith) in
              inr (
                last,
                is,
                ap table_of word
                    ∙ entry_of-table (a + 0x1000 * 257) (omega arith) (omega arith)
                    ∙ omega arith,
              )
        ]
  ]

  leads :
      (q : Ptr) (j i : ℕ)
      → first_level root q ≡ suc (suc i)
      → j < 512
      → test_bit (pages q j) pf_pres ≡ true
      → test_bit (pages q j) pf_large ≡ false
      → Leads q j
  leads q j i l small there plain = elim (Bool-cases (q == root)) [
    | inl top ↦ Leads-root q j (ground (arith, top)) small there
    | inr below ↦ elim (Bool-cases (q == root + 0x1000 * 257)) [
      | inl window ↦
          let at : q ≡ root + 0x1000 * 257 = ground (arith, window) in
          let word : pages q j ≡ window_entry j = ap (λ q. pages q j) at ∙ m.entries j small in
          absurd (
            ground (arith, sym (ap (λ w. test_bit w pf_large) word ∙ window_entry-large j) ∙ plain))
      | inr third ↦
          let third' : (ltb root q && ltb q (root + 0x1000 * 257) && (q - root) % 0x1000 == 0)
              ≡ true =
            ground (arith, l, below, third) in
          let from : root < q = ground (arith, third') in
          let to : q < root + 0x1000 * 257 = ground (arith, third') in
          let whole : (q - root) % 0x1000 ≡ 0 = ground (arith, third') in
          Leads-third q j ((q - root) / 0x1000 - 1) (omega arith) (omega arith) small there
    ]
  ]

  at_root : first_level root root ≡ 4
  at_root = ground arith

  at_third : (i : ℕ) → i < 256 → first_level root (root + 0x1000 * (i + 1)) ≡ 3
  at_third i small = ground arith

  at_window : first_level root (root + 0x1000 * 257) ≡ 2
  at_window = ground arith

  -- Two tables of one level with the same next table.
  Leads-one :
      (q q' : Ptr) (j j' i : ℕ)
      → first_level root q ≡ suc (suc i)
      → first_level root q' ≡ suc (suc i)
      → table_of (pages q j) ≡ table_of (pages q' j')
      → Leads q j
      → Leads q' j'
      → (q ≡ q') × (j ≡ j')
  unfolding Leads
  Leads-one q q' j j' i l l' same (inl (at, high, to)) (inl (at', high', to')) =
      let e = sym to ∙ same ∙ to' in (at ∙ sym at', omega arith)
  Leads-one q q' j j' i l l' same (inl (at, high, to)) (inr (at', last', to')) =
      let e =
        sym at_root
        ∙ ap (first_level root) (sym at)
        ∙ l
        ∙ sym l'
        ∙ ap (first_level root) at'
        ∙ at_third 255 (omega arith) in
      absurd (ground (arith, e))
  Leads-one q q' j j' i l l' same (inr (at, last, to)) (inl (at', high', to')) =
      let e =
        sym at_root
        ∙ ap (first_level root) (sym at')
        ∙ l'
        ∙ sym l
        ∙ ap (first_level root) at
        ∙ at_third 255 (omega arith) in
      absurd (ground (arith, e))
  Leads-one q q' j j' i l l' same (inr (at, last, to)) (inr (at', last', to')) =
      (at ∙ sym at', last ∙ sym last')

  Leads-down :
      (q : Ptr) (j i : ℕ)
      → first_level root q ≡ suc (suc i)
      → j < 512
      → Leads q j
      → first_level root (table_of (pages q j)) ≡ suc i
  unfolding Leads
  Leads-down q j i l small (inl (at, high, to)) =
      let e = sym at_root ∙ ap (first_level root) (sym at) ∙ l in
      let three : 3 ≡ suc i = omega arith in
      ap (first_level root) to
      ∙ ap (first_level root) (omega arith)
      ∙ at_third (j - 256) (omega arith)
      ∙ three
  Leads-down q j i l small (inr (at, last, to)) =
      let e = sym (at_third 255 (omega arith)) ∙ ap (first_level root) (sym at) ∙ l in
      let two : 2 ≡ suc i = omega arith in ap (first_level root) to ∙ at_window ∙ two

  below_frames : (q : Ptr) → first_level root q ≢ 0 → q < root + 0x1000 * 258
  below_frames q z = elim (Bool-cases (q == root)) [
    | inl top ↦ ground (arith, top)
    | inr lower ↦ elim (Bool-cases (q == root + 0x1000 * 257)) [
      | inl window ↦ ground (arith, window)
      | inr third ↦ ground (arith, z, lower, third)
    ]
  ]

  pub Mapped-Tree : Tree (first_level root) (root + 0x1000 * 258) root pages
  Mapped-Tree = record {
    top = at_root;
    below = below_frames;
    closed =
        λ q j i l small there plain. Leads-down q j i l small (leads q j i l small there plain);
    single = λ q q' j j' i l l' (small, small') (there, plain) (there', plain') same.
        Leads-one q q' j j' i l l' same (leads q j i l small there plain)
          (leads q' j' i l' small' there' plain');
  }
