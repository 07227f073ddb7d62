-- ===== src/Resolve.antt =====
-- The resolution of the names of API calls (src/pinion64/api_resolve.c). The addresses of the entry code
-- are a parameter, by the place of the call in the list.
pub mod Names
use pinion.Config.{strcmp}
use pinion.Prelude.{List, ℕ, ◌∷◌, [], ◌+◌, if◌then◌else◌, ◌==◌, ◌%◌, ◌^◌}

abbrev pub thread_yield : List ℕ
thread_yield =
    b't' ∷ b'h' ∷ b'r' ∷ b'e' ∷ b'a' ∷ b'd' ∷ b'_' ∷ b'y' ∷ b'i' ∷ b'e' ∷ b'l' ∷ b'd' ∷ []

abbrev pub thread_create : List ℕ
thread_create =
    b't' ∷ b'h' ∷ b'r' ∷ b'e' ∷ b'a' ∷ b'd' ∷ b'_' ∷ b'c' ∷ b'r' ∷ b'e' ∷ b'a' ∷ b't' ∷ b'e' ∷ []

abbrev pub thread_pause : List ℕ
thread_pause =
    b't' ∷ b'h' ∷ b'r' ∷ b'e' ∷ b'a' ∷ b'd' ∷ b'_' ∷ b'p' ∷ b'a' ∷ b'u' ∷ b's' ∷ b'e' ∷ []

abbrev pub thread_resume : List ℕ
thread_resume =
    b't' ∷ b'h' ∷ b'r' ∷ b'e' ∷ b'a' ∷ b'd' ∷ b'_' ∷ b'r' ∷ b'e' ∷ b's' ∷ b'u' ∷ b'm' ∷ b'e' ∷ []

abbrev pub thread_pull_state : List ℕ
thread_pull_state =
    b't' ∷ b'h' ∷ b'r' ∷ b'e' ∷ b'a' ∷ b'd' ∷ b'_' ∷ b'p' ∷ b'u' ∷ b'l' ∷ b'l' ∷ b'_' ∷ b's' ∷ b't'
    ∷ b'a' ∷ b't' ∷ b'e' ∷ []

abbrev pub thread_push_state : List ℕ
thread_push_state =
    b't' ∷ b'h' ∷ b'r' ∷ b'e' ∷ b'a' ∷ b'd' ∷ b'_' ∷ b'p' ∷ b'u' ∷ b's' ∷ b'h' ∷ b'_' ∷ b's' ∷ b't'
    ∷ b'a' ∷ b't' ∷ b'e' ∷ []

abbrev pub thread_exit : List ℕ
thread_exit = b't' ∷ b'h' ∷ b'r' ∷ b'e' ∷ b'a' ∷ b'd' ∷ b'_' ∷ b'e' ∷ b'x' ∷ b'i' ∷ b't' ∷ []

abbrev pub thread_reap : List ℕ
thread_reap = b't' ∷ b'h' ∷ b'r' ∷ b'e' ∷ b'a' ∷ b'd' ∷ b'_' ∷ b'r' ∷ b'e' ∷ b'a' ∷ b'p' ∷ []

abbrev pub interrupt_set_tap : List ℕ
interrupt_set_tap =
    b'i' ∷ b'n' ∷ b't' ∷ b'e' ∷ b'r' ∷ b'r' ∷ b'u' ∷ b'p' ∷ b't' ∷ b'_' ∷ b's' ∷ b'e' ∷ b't' ∷ b'_'
    ∷ b't' ∷ b'a' ∷ b'p' ∷ []

abbrev pub interrupt_get_tap : List ℕ
interrupt_get_tap =
    b'i' ∷ b'n' ∷ b't' ∷ b'e' ∷ b'r' ∷ b'r' ∷ b'u' ∷ b'p' ∷ b't' ∷ b'_' ∷ b'g' ∷ b'e' ∷ b't' ∷ b'_'
    ∷ b't' ∷ b'a' ∷ b'p' ∷ []

abbrev pub interrupt_reset : List ℕ
interrupt_reset =
    b'i' ∷ b'n' ∷ b't' ∷ b'e' ∷ b'r' ∷ b'r' ∷ b'u' ∷ b'p' ∷ b't' ∷ b'_' ∷ b'r' ∷ b'e' ∷ b's' ∷ b'e'
    ∷ b't' ∷ []

abbrev pub interrupt_wait : List ℕ
interrupt_wait =
    b'i' ∷ b'n' ∷ b't' ∷ b'e' ∷ b'r' ∷ b'r' ∷ b'u' ∷ b'p' ∷ b't' ∷ b'_' ∷ b'w' ∷ b'a' ∷ b'i' ∷ b't'
    ∷ []

abbrev pub fault_get_pagefault : List ℕ
fault_get_pagefault =
    b'f' ∷ b'a' ∷ b'u' ∷ b'l' ∷ b't' ∷ b'_' ∷ b'g' ∷ b'e' ∷ b't' ∷ b'_' ∷ b'p' ∷ b'a' ∷ b'g' ∷ b'e'
    ∷ b'f' ∷ b'a' ∷ b'u' ∷ b'l' ∷ b't' ∷ []

abbrev pub fault_get_miscfault : List ℕ
fault_get_miscfault =
    b'f' ∷ b'a' ∷ b'u' ∷ b'l' ∷ b't' ∷ b'_' ∷ b'g' ∷ b'e' ∷ b't' ∷ b'_' ∷ b'm' ∷ b'i' ∷ b's' ∷ b'c'
    ∷ b'f' ∷ b'a' ∷ b'u' ∷ b'l' ∷ b't' ∷ []

abbrev pub fault_get_zombie : List ℕ
fault_get_zombie =
    b'f' ∷ b'a' ∷ b'u' ∷ b'l' ∷ b't' ∷ b'_' ∷ b'g' ∷ b'e' ∷ b't' ∷ b'_' ∷ b'z' ∷ b'o' ∷ b'm' ∷ b'b'
    ∷ b'i' ∷ b'e' ∷ []

abbrev pub page_set : List ℕ
page_set = b'p' ∷ b'a' ∷ b'g' ∷ b'e' ∷ b'_' ∷ b's' ∷ b'e' ∷ b't' ∷ []

abbrev pub page_get : List ℕ
page_get = b'p' ∷ b'a' ∷ b'g' ∷ b'e' ∷ b'_' ∷ b'g' ∷ b'e' ∷ b't' ∷ []

abbrev pub memory_map_read : List ℕ
memory_map_read =
    b'm' ∷ b'e' ∷ b'm' ∷ b'o' ∷ b'r' ∷ b'y' ∷ b'_' ∷ b'm' ∷ b'a' ∷ b'p' ∷ b'_' ∷ b'r' ∷ b'e' ∷ b'a'
    ∷ b'd' ∷ []

-- The calls in the order in which they are tried.
abbrev pub calls : List (List ℕ)
calls =
    thread_yield ∷ thread_create ∷ thread_pause ∷ thread_resume ∷ thread_pull_state
    ∷ thread_push_state ∷ thread_exit ∷ thread_reap ∷ interrupt_set_tap ∷ interrupt_get_tap
    ∷ interrupt_reset ∷ interrupt_wait ∷ fault_get_pagefault ∷ fault_get_miscfault
    ∷ fault_get_zombie ∷ page_set ∷ page_get ∷ memory_map_read ∷ []

-- `"__PINION_" #NAME`
abbrev pub symbol_of : List ℕ → List ℕ
symbol_of name = b'_' ∷ b'_' ∷ b'P' ∷ b'I' ∷ b'N' ∷ b'I' ∷ b'O' ∷ b'N' ∷ b'_' ∷ name

-- The tests from place `i` on.
pub resolve_from :
    (entry : ℕ → ℕ) (load_addr : ℕ) (names : List (List ℕ)) (i : ℕ) (symbol : List ℕ) → ℕ
resolve_from entry load_addr [] i symbol = 0
resolve_from entry load_addr (name ∷ names) i symbol =
    let rest = resolve_from entry load_addr names (i + 1) symbol in
    if strcmp symbol (symbol_of name) == 0 then (load_addr + entry i) % 2 ^ 64 else rest

pub resolve : (entry : ℕ → ℕ) (load_addr : ℕ) (symbol : List ℕ) → ℕ
resolve entry load_addr symbol = resolve_from entry load_addr calls 0 symbol
