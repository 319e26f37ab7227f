-- ===== src/Cache/Reading.antt =====
-- crates/caelix-core/src/cache.rs: what `get` reads behind a `set`, and the bound on the store.
use caelix.Prelude.{
  ℕ, suc, ◌≤◌, ◌<◌, ◌≡◌, refl, sym, ap, subst, ◌∙◌, ◌≢◌, inl, inr, String, true, false, Option,
  none, some, [], ◌∷◌, ltb, ltb→lt, Bool-cases, if◌then◌else◌, length, str_eq, str_eq_iff,
  str_eq_refl, arith, All,
}
use caelix.Errors.{cache_value_too_large, Outcome, done, fail, panicked, out_of_fuel, ◌>>=◌}
use caelix.Maps.{get as find, remove, get-remove_ne, get-remove_self, str_eq_of_ne}
use caelix.Cache.{
  CacheEntry, MemoryCacheOptions, Entries, expiry, new_entry, passed, is_expired, remove_expired,
  insert, read_entry, get, or_else, payload_too_large, store_entry, set,
}
use caelix.Cache.Eviction.{
  Before, All-remove, length-evict_to_capacity, evict_to_capacity-head, evict_to_capacity_same,
}

passed-le :
    (now later : ℕ) (t : Option ℕ) → now ≤ later → passed now t ≡ true → passed later t ≡ true
passed-le now later none l h = cc h
passed-le now later (some t) l h = ground arith

module _ {V : Type 0} where
  -- No key stands twice.
  abbrev pub Distinct : Entries V → Type 0
  Distinct [] = Unit
  Distinct ((k, e) ∷ es) = (find es k ≡ none) × Distinct es

  -- What a reader sees of an entry.
  abbrev pub fresh_value : ℕ → Option (CacheEntry V) → Option V
  fresh_value now none = none
  fresh_value now (some e) = if is_expired now e then none else some e.value

  pub get-fresh_value :
      (now : ℕ) (key : String) (es : Entries V) → (get now key es).0 ≡ fresh_value now (find es key)
  get-fresh_value now key es = by_entry (find es key)
    where
      by_entry : (o : Option (CacheEntry V)) → (read_entry now key es o).0 ≡ fresh_value now o
      by_entry none = refl
      by_entry (some e) = elim (Bool-cases (is_expired now e)) [
        | inl old ↦ rw old
        | inr young ↦ rw young
      ]

  All-remove_expired :
      (P : String × CacheEntry V → Type 0) (now : ℕ) (es : Entries V)
      → All P es
      → All P (remove_expired now es)
  All-remove_expired P now [] h = tt
  All-remove_expired P now ((k, e) ∷ es) (p, h) = elim (Bool-cases (is_expired now e)) [
    | inl old ↦ rw old (All-remove_expired P now es h)
    | inr young ↦ rw young (p, All-remove_expired P now es h)
  ]

  find-remove_expired-none :
      (now : ℕ) (es : Entries V) (j : String)
      → find es j ≡ none
      → find (remove_expired now es) j ≡ none
  find-remove_expired-none now [] j h = refl
  find-remove_expired-none now ((k, e) ∷ es) j h = elim (Bool-cases (str_eq k j)) [
    | inl same ↦ cc (rw same at h)
    | inr other ↦
        let rest = find-remove_expired-none now es j (rw other at h) in
        elim (Bool-cases (is_expired now e)) [
          | inl old ↦ rw old rest
          | inr young ↦ rw (young, other) rest
        ]
  ]

  -- The entries that `set` drops first are those that nobody could read any more.
  fresh_value-remove_expired :
      (now later : ℕ) (es : Entries V) (j : String)
      → now ≤ later
      → Distinct es
      → fresh_value later (find (remove_expired now es) j) ≡ fresh_value later (find es j)
  fresh_value-remove_expired now later [] j l d = refl
  fresh_value-remove_expired now later ((k, e) ∷ es) j l (n, d) =
      elim (Bool-cases (is_expired now e)) [
        | inl old ↦ elim (Bool-cases (str_eq k j)) [
          | inl same ↦
              let gone : find (remove_expired now es) j ≡ none =
                find-remove_expired-none now es j
                  (subst (λ x. find es x ≡ none) ((str_eq_iff k j).0 same) n) in
              let unread : is_expired later e ≡ true = passed-le now later e.expires_at l old in
              rw (old, gone, same, unread)
          | inr other ↦ rw (old, other) (fresh_value-remove_expired now later es j l d)
        ]
        | inr young ↦ elim (Bool-cases (str_eq k j)) [
          | inl same ↦ rw (young, same)
          | inr other ↦ rw (young, other) (fresh_value-remove_expired now later es j l d)
        ]
      ]

  module _ (byte_size : V → Outcome ℕ) (options : MemoryCacheOptions) (clock_max now : ℕ)
      (key : String) (value : V) (ttl : Option ℕ) (es : Entries V) where
    abbrev entry : CacheEntry V
    entry = new_entry clock_max now value (or_else ttl options.default_ttl)

    abbrev others : Entries V
    others = remove (remove_expired now es) key

    set_stores :
        (n : ℕ)
        → byte_size value ≡ done n
        → n ≤ options.max_value_bytes
        → set byte_size options clock_max now key value ttl es
          ≡ done (store_entry options clock_max now key value ttl es)
    unfolding set
    set_stores n size fits =
        let small : ltb options.max_value_bytes n ≡ false = ground arith in rw (size, small)

    stored-head :
        0 < options.max_entries
        → Before now es
        → (rest : Entries V) × (store_entry options clock_max now key value ttl es
            ≡ (key, entry) ∷ rest)
    stored-head pos b =
        evict_to_capacity-head options.max_entries key entry others pos
          (All-remove _ (remove_expired now es) key (All-remove_expired _ now es b))
          (get-remove_self (remove_expired now es) key)

    read_stored :
        (later : ℕ)
        → 0 < options.max_entries
        → Before now es
        → (get later key (store_entry options clock_max now key value ttl es)).0
          ≡ fresh_value later (some entry)
    read_stored later pos b =
        let (rest, r) = stored-head pos b in
        let self : str_eq key key ≡ true = str_eq_refl key in
        let found : find ((key, entry) ∷ rest) key ≡ some entry = rw self in
        get-fresh_value later key (store_entry options clock_max now key value ttl es)
        ∙ ap (λ m. fresh_value later (find m key)) r
        ∙ ap (fresh_value later) found

    read_other :
        (later : ℕ) (j : String)
        → key ≢ j
        → now ≤ later
        → Distinct es
        → suc (length others) ≤ options.max_entries
        → (get later j (store_entry options clock_max now key value ttl es)).0 ≡ (get later j es).0
    read_other later j ne l d room =
        let other : str_eq key j ≡ false = str_eq_of_ne key j ne in
        let skip : find ((key, entry) ∷ others) j ≡ find others j = rw other in
        get-fresh_value later j (store_entry options clock_max now key value ttl es)
        ∙ ap (λ m. fresh_value later (find m j))
            (evict_to_capacity_same options.max_entries (key, entry) others room)
        ∙ ap (fresh_value later) (skip ∙ get-remove_ne (remove_expired now es) key j ne)
        ∙ fresh_value-remove_expired now later es j l d
        ∙ sym (get-fresh_value later j es)

-- What a read gets behind a `set` that succeeds.
abbrev pub read_after : {V : Type 0} → ℕ → String → Outcome (Entries V) → Outcome (Option V)
read_after later key r = r >>= λ es. done (get later key es).0

-- Behind a `set` of a value whose size is known and at most the largest one allowed, in a store that may
-- hold at least one entry and whose entries were written before the `set`, a read of the key gets the
-- value, or nothing from the instant at which its time to live, or else the default one, is over. A
-- time past the clock never is.
pub set_then_get :
    {V : Type 0} (byte_size : V → Outcome ℕ) (options : MemoryCacheOptions)
    (clock_max now later : ℕ) (key : String) (value : V) (ttl : Option ℕ) (es : Entries V) (n : ℕ)
    → byte_size value ≡ done n
    → n ≤ options.max_value_bytes
    → 0 < options.max_entries
    → Before now es
    → read_after later key (set byte_size options clock_max now key value ttl es)
      ≡ done (
          if passed later (expiry clock_max now (or_else ttl options.default_ttl))
          then none
          else some value)
set_then_get byte_size options clock_max now later key value ttl es n size fits pos b =
    ap (read_after later key)
      (set_stores byte_size options clock_max now key value ttl es n size fits)
    ∙ ap done (read_stored byte_size options clock_max now key value ttl es later pos b)

-- A `set` that overflows nothing leaves what a later read of another key gets.
pub set_keeps_other :
    {V : Type 0} (byte_size : V → Outcome ℕ) (options : MemoryCacheOptions)
    (clock_max now later : ℕ) (key other : String) (value : V) (ttl : Option ℕ) (es : Entries V)
    (n : ℕ)
    → byte_size value ≡ done n
    → n ≤ options.max_value_bytes
    → key ≢ other
    → now ≤ later
    → Distinct es
    → suc (length (remove (remove_expired now es) key)) ≤ options.max_entries
    → read_after later other (set byte_size options clock_max now key value ttl es)
      ≡ done (get later other es).0
set_keeps_other byte_size options clock_max now later key other value ttl es n size fits ne l d
      room =
    ap (read_after later other)
      (set_stores byte_size options clock_max now key value ttl es n size fits)
    ∙ ap done (read_other byte_size options clock_max now key value ttl es later other ne l d room)

-- The result of a `set`, by the size of the value: an error, or at most `max_entries` entries.
abbrev pub SetResult : {V : Type 0} → MemoryCacheOptions → Outcome ℕ → Outcome (Entries V) → Type 0
SetResult options (done n) (done es) =
    (n ≤ options.max_value_bytes) × (length es ≤ options.max_entries)
SetResult options (done n) (fail e) =
    (options.max_value_bytes < n)
    × (e ≡ payload_too_large (cache_value_too_large options.max_value_bytes))
SetResult options (done n) panicked = ⊥
SetResult options (done n) out_of_fuel = ⊥
SetResult options (fail x) r = r ≡ fail x
SetResult options panicked r = r ≡ panicked
SetResult options out_of_fuel r = r ≡ out_of_fuel

-- A `set` succeeds exactly for a value that can be written and is not larger than the limit, and the
-- store then has no more entries than its capacity, which also shows that the eviction loop ends;
-- a larger value is refused with its own error, and an error of the writer is passed on.
pub set-SetResult :
    {V : Type 0} (byte_size : V → Outcome ℕ) (options : MemoryCacheOptions) (clock_max now : ℕ)
    (key : String) (value : V) (ttl : Option ℕ) (es : Entries V)
    → SetResult options (byte_size value) (set byte_size options clock_max now key value ttl es)
unfolding set
set-SetResult byte_size options clock_max now key value ttl es = by_size (byte_size value) refl
  where
    by_size :
        (m : Outcome ℕ)
        → byte_size value ≡ m
        → SetResult options m (set byte_size options clock_max now key value ttl es)
    by_size (done n) e = elim (Bool-cases (ltb options.max_value_bytes n)) [
      | inl large ↦ rw (e, large) (ltb→lt options.max_value_bytes n large, refl)
      | inr small ↦
          rw (e, small)
            (
              ground arith,
              length-evict_to_capacity options.max_entries (
                  insert (remove_expired now es) key
                    (new_entry clock_max now value (or_else ttl options.default_ttl))),
            )
    ]
    by_size (fail x) e = rw e refl
    by_size panicked e = rw e refl
    by_size out_of_fuel e = rw e refl
