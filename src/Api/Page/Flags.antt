-- ===== src/Api/Page/Flags.antt =====
-- The two conversions of page flags.
use pinion.Prelude.{
  Bool, ◌≡◌, ℕ, true, not, ◌||◌, arith, ◌&&◌, if◌then◌else◌, ◌^◌, ◌==◌, refl, false, ◌+◌,
}
use pinion.Api.Page.{
  cook, cook_present, uncook, uncook_present, page_valid, page_read, page_write, page_exec,
  page_user, page_accessed, page_dirty, page_cache_disable, page_write_through,
}

-- `1 << b` if the flag is set.
abbrev pub flag : Bool → ℕ → ℕ
flag c b = if c then 2 ^ b else 0

-- Valid flags of the API: what may be done with the page, and how it was used.
abbrev pub api_flags : (r w x user accessed dirty uncached through : Bool) → ℕ
api_flags r w x user accessed dirty uncached through =
    2 ^ page_valid
    + flag r page_read
    + flag w page_write
    + flag x page_exec
    + flag user page_user
    + flag accessed page_accessed
    + flag dirty page_dirty
    + flag uncached page_cache_disable
    + flag through page_write_through

-- Both values of a Boolean pass a test.
both : (Bool → Bool) → Bool
both test = test true && test false

both-each : (test : Bool → Bool) → both test ≡ true → (b : Bool) → test b ≡ true
unfolding both
both-each test e true = ground arith
both-each test e false = ground arith

returns_flags : (r w x user accessed dirty uncached through : Bool) → Bool
returns_flags r w x user accessed dirty uncached through =
    not (r || w || x)
    || cook (uncook (api_flags r w x user accessed dirty uncached through))
      == api_flags r w x user accessed dirty uncached through

abbrev all_flags : Bool
all_flags = both λ r.
    both
      λ w. both λ x. both λ u. both λ a. both λ d. both λ n. both λ t. returns_flags r w x u a d n t

all_flags-holds : all_flags ≡ true
unfolding both returns_flags cook cook_present uncook uncook_present
all_flags-holds = refl

from_test : (c : Bool) (a b : ℕ) → not c || a == b ≡ true → c ≡ true → a ≡ b
from_test c a b e is = ground arith

-- For valid flags of the API with some access allowed, and any of the other flags, the
-- conversion of page_get takes the page table flags that page_set computes back to these flags.
pub cook-uncook :
    (r w x user accessed dirty uncached through : Bool)
    → r || w || x ≡ true
    → cook (uncook (api_flags r w x user accessed dirty uncached through))
      ≡ api_flags r w x user accessed dirty uncached through
unfolding returns_flags
cook-uncook r w x u a d n t access =
    let e =
      both-each _
        (both-each _
          (both-each _
            (both-each _
              (both-each _ (both-each _ (both-each _ (both-each _ all_flags-holds r) w) x) u) a)
            d)
          n)
        t in
    from_test (r || w || x) _ _ e access
