-- ===== src/Tests/Caching.antt =====
-- The cache store: reading behind a write, and the limits.
use caelix.Prelude.{
  ℕ, String, ◌≡◌, ◌≢◌, refl, ap, some, none, [], ◌∷◌, arith, str_eq, if◌then◌else◌,
}
use caelix.Errors.{cache_value_too_large, Outcome, done, fail}
use caelix.Cache.{
  MemoryCacheOptions, Entries, new_entry, expiry, or_else, passed, get, payload_too_large, set,
}
use caelix.Cache.Reading.{read_after, SetResult, set_then_get, set_keeps_other, set-SetResult}

-- Two entries of at most four bytes, which live for 100.
abbrev options : MemoryCacheOptions
options = record { max_entries = 2; max_value_bytes = 4; default_ttl = some 100 }

-- The size of the values of these tests, which are numbers.
abbrev size_of : ℕ → Outcome ℕ
size_of v = done v

abbrev stored : Entries ℕ
stored = ("a", new_entry 1000 10 3 (some 20)) ∷ []

abbrev key : String
key = "b"

abbrev other : String
other = "a"

keys_differ : key ≢ other
keys_differ e = cc (ap (λ s. str_eq s other) e)

set_then_get_example :
    read_after 50 key (set size_of options 1000 20 key 4 none stored)
    ≡ done (if passed 50 (expiry 1000 20 (or_else none options.default_ttl)) then none else some 4)
set_then_get_example =
    set_then_get size_of options 1000 20 50 key 4 none stored 4 refl (omega arith) (omega arith)
      (omega arith, tt)

set_keeps_other_example :
    read_after 25 other (set size_of options 1000 20 key 4 none stored)
    ≡ done (get 25 other stored).0
set_keeps_other_example =
    set_keeps_other size_of options 1000 20 25 key other 4 none stored 4 refl (omega arith)
      keys_differ (omega arith) (refl, tt) (omega arith)

set-SetResult_example :
    SetResult options (size_of 5) (set size_of options 1000 20 key 5 none stored)
set-SetResult_example = set-SetResult size_of options 1000 20 key 5 none stored

refused :
    set size_of options 1000 20 key 5 none stored
    ≡ fail (payload_too_large (cache_value_too_large 4))
unfolding set
refused = refl

-- The third entry takes the place of the oldest.
evicted :
    (set size_of options 1000 21 "c" 1 none
      (("b", new_entry 1000 20 4 none) ∷ ("a", new_entry 1000 10 3 none) ∷ []))
    ≡ done (("c", new_entry 1000 21 1 (some 100)) ∷ ("b", new_entry 1000 20 4 none) ∷ [])
unfolding set
evicted = refl
