-- ===== src/Cache.antt =====
-- crates/caelix-core/src/cache.rs: `MemoryCacheStore`.
-- An `Instant` and a `Duration` are numbers; `clock_max` is the latest instant of the clock. The time
-- is an argument: a call holds the lock from its first look at the map. Values are those of
-- serde_json, with the length of the text that it writes for one, which may fail, as a parameter.
-- The map iterates in the order of its list.
pub mod Eviction
pub mod Reading
use caelix.Prelude.{
  ℕ, suc, zero, ◌+◌, ◌*◌, String, Bool, true, false, not, ◌||◌, Option, none, some, List, [], ◌∷◌,
  ltb, leb, ◌==◌, if◌then◌else◌, length,
}
use caelix.Errors.{text, HttpException, Message, cache_value_too_large, Outcome, done, fail, ◌>>=◌}
use caelix.Maps.{get as find, remove}

pub record CacheEntry (V : Type 0) : Type 0 where
  pub value : V
  pub inserted_at : ℕ
  pub expires_at : Option ℕ

pub record MemoryCacheOptions : Type 0 where
  pub max_entries : ℕ
  pub max_value_bytes : ℕ
  pub default_ttl : Option ℕ

abbrev pub default_options : MemoryCacheOptions
default_options = record { max_entries = 1024; max_value_bytes = 1024 * 1024; default_ttl = none }

abbrev pub Entries : Type 0 → Type 0
Entries V = List (String × CacheEntry V)

-- `now.checked_add(ttl)`, where there is a time to live.
abbrev pub expiry : (clock_max now : ℕ) → Option ℕ → Option ℕ
expiry clock_max now none = none
expiry clock_max now (some ttl) = if ltb clock_max (now + ttl) then none else some (now + ttl)

-- `CacheEntry::new`
abbrev pub new_entry : {V : Type 0} → (clock_max now : ℕ) → V → Option ℕ → CacheEntry V
new_entry clock_max now value ttl = record {
  value = value;
  inserted_at = now;
  expires_at = expiry clock_max now ttl;
}

abbrev pub passed : ℕ → Option ℕ → Bool
passed now none = false
passed now (some t) = leb t now

abbrev pub is_expired : {V : Type 0} → ℕ → CacheEntry V → Bool
is_expired now e = passed now e.expires_at

abbrev pub remove_expired : {V : Type 0} → ℕ → Entries V → Entries V
remove_expired now [] = []
remove_expired now ((k, e) ∷ es) =
    let rest = remove_expired now es in if is_expired now e then rest else (k, e) ∷ rest

-- `min_by_key`, which takes the first of several least.
abbrev pub older :
    {V : Type 0} → String × CacheEntry V → Option (String × CacheEntry V) → String × CacheEntry V
older p none = p
older p (some q) = if leb p.1.inserted_at q.1.inserted_at then p else q

abbrev pub oldest : {V : Type 0} → Entries V → Option (String × CacheEntry V)
oldest [] = none
oldest (p ∷ es) = some (older p (oldest es))

abbrev remove_oldest : {V : Type 0} → Entries V → Option (String × CacheEntry V) → Entries V
remove_oldest es none = es
remove_oldest es (some p) = remove es p.0

-- The loop of `evict_to_capacity`; the fuel is the number of entries.
pub evict_loop : {V : Type 0} → ℕ → ℕ → Entries V → Entries V
evict_loop zero max_entries es = es
evict_loop (suc fuel) max_entries es =
    let rest = evict_loop fuel max_entries (remove_oldest es (oldest es)) in
    if ltb max_entries (length es) then rest else es

abbrev pub evict_to_capacity : {V : Type 0} → ℕ → Entries V → Entries V
evict_to_capacity max_entries es =
    if max_entries == 0 then [] else evict_loop (length es) max_entries es

-- `HashMap::insert`
abbrev pub insert : {V : Type 0} → Entries V → String → CacheEntry V → Entries V
insert es key e = (key, e) ∷ remove es key

-- `CacheStore::get`
abbrev pub read_entry :
    {V : Type 0} → ℕ → String → Entries V → Option (CacheEntry V) → Option V × Entries V
read_entry now key es none = (none, es)
read_entry now key es (some e) =
    if is_expired now e then (none, remove es key) else (some e.value, es)

abbrev pub get : {V : Type 0} → ℕ → String → Entries V → Option V × Entries V
get now key es = read_entry now key es (find es key)

abbrev pub or_else : Option ℕ → Option ℕ → Option ℕ
or_else none d = d
or_else (some t) d = some t

abbrev pub payload_too_large : Message → HttpException
payload_too_large m = record { status = 413; error = "Payload Too Large"; message = m }

-- `CacheStore::set`, from the size of the value.
abbrev pub store_entry :
    {V : Type 0}
    → MemoryCacheOptions
    → (clock_max now : ℕ) → String
    → V
    → Option ℕ
    → Entries V
    → Entries V
store_entry options clock_max now key value ttl es = evict_to_capacity options.max_entries (
    insert (remove_expired now es) key
      (new_entry clock_max now value (or_else ttl options.default_ttl)))

unfoldable pub set :
    {V : Type 0}
    → (V → Outcome ℕ)
    → MemoryCacheOptions
    → (clock_max now : ℕ) → String
    → V
    → Option ℕ
    → Entries V
    → Outcome (Entries V)
unfolding evict_loop
set byte_size options clock_max now key value ttl es = do
  size ← byte_size value
  if ltb options.max_value_bytes size
      then fail (payload_too_large (cache_value_too_large options.max_value_bytes))
      else done (store_entry options clock_max now key value ttl es)

-- `CacheStore::delete`, `CacheStore::clear`
abbrev pub delete : {V : Type 0} → String → Entries V → Entries V
delete key es = remove es key

abbrev pub clear : {V : Type 0} → Entries V → Entries V
clear es = []
