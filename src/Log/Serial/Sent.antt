-- ===== src/Log/Serial/Sent.antt =====
-- What goes out to the device.
use mathlib.Core.List.{append_assoc, append-nil}
use pinion.Log.Serial.{Serial, wait_loop, put_ready, set_up, putc, put_text, data_port}
use pinion.Prelude.{
  ℕ, List, [], ◌∷◌, ◌++◌, some, true, false, zero, suc, ◌≡◌, ◌<◌, ◌+◌, ◌==◌, ◌∙◌, if◌then◌else◌,
  test_bit, arith, refl, ap, Bool-cases, inl, inr, sym,
}

-- The bytes on the wire: a new line goes with a carriage return before it.
abbrev pub sent : List ℕ → List (ℕ × ℕ)
sent [] = []
sent (c ∷ cs) =
    (if c == 10 then (data_port, 13) ∷ (data_port, c) ∷ [] else (data_port, c) ∷ []) ++ sent cs

-- The writes that set the device up, with a new line behind them.
abbrev pub start : List (ℕ × ℕ)
start =
    (0x3F9, 0x00)
    ∷ (0x3FB, 0x80)
    ∷ (0x3F8, 0x03)
    ∷ (0x3F9, 0x00)
    ∷ (0x3FB, 0x03)
    ∷ (0x3FA, 0xC7)
    ∷ (0x3FC, 0x0B)
    ∷ (data_port, 13)
    ∷ (data_port, 10)
    ∷ []

-- From each read on, one of the next `rounds` says that the device is ready.
abbrev pub Responsive : (rounds : ℕ) → (inb : ℕ → ℕ) → Type 0
Responsive rounds inb = (i : ℕ) → (j : ℕ) × (j < rounds) × (test_bit (inb (i + j)) 5 ≡ true)

wait_loop-ready :
    (n j : ℕ) (inb : ℕ → ℕ) (s : Serial)
    → j < n
    → test_bit (inb (s.reads + j)) 5 ≡ true
    → (r : ℕ) × (wait_loop n inb s ≡ some (record s { reads = r }))
unfolding wait_loop
wait_loop-ready zero j inb s l ready = absurd (omega arith)
wait_loop-ready (suc n) zero inb s l ready =
    let now : test_bit (inb s.reads) 5 ≡ true =
      ap (λ i. test_bit (inb i) 5) (omega arith) ∙ ready in
    (s.reads + 1, rw now refl)
wait_loop-ready (suc n) (suc j) inb s l ready = elim (Bool-cases (test_bit (inb s.reads) 5)) [
  | inl now ↦ (s.reads + 1, rw now refl)
  | inr later ↦
      let (r, e) =
        wait_loop-ready n j inb (record s { reads = s.reads + 1 }) (omega arith)
          (ap (λ i. test_bit (inb i) 5) (omega arith) ∙ ready) in
      (r, rw later e)
]

sent-cons : (c : ℕ) (cs : List ℕ) → sent (c ∷ []) ++ sent cs ≡ sent (c ∷ cs)
sent-cons c cs = elim (Bool-cases (c == 10)) [ inl line ↦ rw line refl | inr plain ↦ rw plain refl ]

-- The writes of the set-up, and the new line.
set_up_writes :
    (ws : List (ℕ × ℕ))
    → (set_up (record { serialinit = false; reads = 0; writes = ws })).writes ++ sent (10 ∷ [])
      ≡ ws ++ start
unfolding set_up
set_up_writes [] = refl
set_up_writes (w ∷ ws) = ap (λ r. w ∷ r) (set_up_writes ws)

-- A device that is set up, with these writes.
abbrev pub on : List (ℕ × ℕ) → ℕ → Serial
on ws r = record { serialinit = true; reads = r; writes = ws }

module _ (rounds : ℕ) (inb : ℕ → ℕ) (device : Responsive rounds inb) where
  put_ready-sent :
      (c : ℕ) (ws : List (ℕ × ℕ)) (r : ℕ)
      → (r' : ℕ) × (put_ready rounds inb c (on ws r) ≡ some (on (ws ++ sent (c ∷ [])) r'))
  unfolding put_ready
  put_ready-sent c ws r =
      let (j, l, ready) = device r in
      let (r', e) = wait_loop-ready rounds j inb (on ws r) l ready in
      elim (Bool-cases (c == 10)) [
        | inl line ↦ (
          r',
          rw (e, line)
              (ap (λ ws. some (on ws r'))
                (append_assoc ws ((data_port, 13) ∷ []) ((data_port, c) ∷ []))),
        )
        | inr plain ↦ (r', rw (e, plain) refl)
      ]

  put_text-sent :
      (text : List ℕ) (ws : List (ℕ × ℕ)) (r : ℕ)
      → (r' : ℕ) × (put_text rounds inb text (on ws r) ≡ some (on (ws ++ sent text) r'))
  unfolding put_text putc
  put_text-sent [] ws r = (r, ap (λ ws. some (on ws r)) (sym (append-nil ws)))
  put_text-sent (c ∷ cs) ws r =
      let (r1, e) = put_ready-sent c ws r in
      let (r2, e') = put_text-sent cs (ws ++ sent (c ∷ [])) r1 in
      (
        r2,
        rw (e, e')
            (ap (λ ws. some (on ws r2))
              (append_assoc ws (sent (c ∷ [])) (sent cs) ∙ ap (λ r. ws ++ r) (sent-cons c cs))),
      )

  put_text-start :
      (c : ℕ) (cs : List ℕ) (s : Serial)
      → s.serialinit ≡ false
      → (r : ℕ) × (put_text rounds inb (c ∷ cs) s
          ≡ some (on (s.writes ++ start ++ sent (c ∷ cs)) r))
  unfolding put_text putc set_up
  put_text-start c cs s off =
      let (r1, e) = put_ready-sent 10 (set_up s).writes s.reads in
      let (r2, e') = put_text-sent (c ∷ cs) ((set_up s).writes ++ sent (10 ∷ [])) r1 in
      (
        r2,
        rw (off, e) (e' ∙ ap (λ ws. some (on (ws ++ sent (c ∷ cs)) r2)) (set_up_writes s.writes)),
      )

  -- On a serial device that is ready at one of the next so many reads of its status, from any
  -- time on, a text that is not empty is put and goes to the data port in order, with a
  -- carriage return before each new line; where the device was not set up yet, the writes of
  -- the set-up and a new line go before.
  pub put_text-wire :
      (c : ℕ) (cs : List ℕ) (s : Serial)
      → (r : ℕ) × (put_text rounds inb (c ∷ cs) s
          ≡ some (on (s.writes ++ (if s.serialinit then [] else start) ++ sent (c ∷ cs)) r))
  put_text-wire c cs s = elim (Bool-cases s.serialinit) [
    | inl ready ↦
        let (r, e) = put_text-sent (c ∷ cs) s.writes s.reads in
        (r, rw ready (e ∙ ap (λ ws. some (on (ws ++ sent (c ∷ cs)) r)) (sym (append-nil s.writes))))
    | inr off ↦
        let (r, e) = put_text-start c cs s off in
        (
          r,
          e
              ∙ ap (λ b. some (on (s.writes ++ (if b then [] else start) ++ sent (c ∷ cs)) r))
                  (sym off),
        )
  ]
