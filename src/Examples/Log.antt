-- ===== src/Examples/Log.antt =====
-- Messages of the log.
use pinion.Log.Serial.Sent.{on, start, sent, put_text-wire}
use pinion.Log.Serial.{Serial, put_text}
use pinion.Log.{puti, putd, number, format}
use pinion.Log.Decimal.{Numeral}
use pinion.Log.Format.{plain, percent, decimal, value-puti, format-pieces}
use mathlib.Core.List.{reverse}
use pinion.Prelude.{ℕ, List, [], ◌∷◌, ◌++◌, some, ◌≡◌, ◌<◌, ◌^◌, arith, false, refl, ◌-◌}

-- -5 as an int
value-puti_example :
    (0xFFFF_FFFB < 2 ^ 31
      → (t : List ℕ) × (puti 0xFFFF_FFFB ≡ some t) × Numeral 0xFFFF_FFFB (reverse t))
    × (2 ^ 31 < 0xFFFF_FFFB
        → 0xFFFF_FFFB < 2 ^ 32
        → (t : List ℕ) × (puti 0xFFFF_FFFB ≡ some (b'-' ∷ t))
          × Numeral (2 ^ 32 - 0xFFFF_FFFB) (reverse t))
value-puti_example = value-puti 0xFFFF_FFFB

-- "n%d%%" with 12
format-pieces_example :
    format (b'n' ∷ b'%' ∷ b'd' ∷ b'%' ∷ b'%' ∷ []) (number 12 ∷ [])
    ≡ some (b'n' ∷ putd 12 ++ b'%' ∷ [])
format-pieces_example =
    format-pieces (plain b'n' ∷ decimal 12 ∷ percent ∷ []) (omega arith, (omega arith, (tt, tt)))

-- "a", new line, on a device that is not set up and always ready
abbrev cold_device : Serial
cold_device = record { serialinit = false; reads = 0; writes = [] }

put_text-wire_example :
    (r : ℕ) × (put_text 1 (λ i. 0x20) (b'a' ∷ 10 ∷ []) cold_device
      ≡ some (on ([] ++ start ++ sent (b'a' ∷ 10 ∷ [])) r))
put_text-wire_example =
    put_text-wire 1 (λ i. 0x20) (λ i. (0, omega arith, refl)) b'a' (10 ∷ []) cold_device
