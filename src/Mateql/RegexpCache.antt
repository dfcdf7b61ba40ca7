-- ===== src/Mateql/RegexpCache.antt =====
-- The cache of compiled expressions, mateql/regexp_cache.go. Each operation holds the lock, so the
-- operations of several goroutines are a sequence of those below.
pub mod Laws
use promate.Base.{
  ℕ, ◌+◌, ◌-◌, ◌*◌, ◌/◌, ◌%◌, ◌^◌, Bool, if◌then◌else◌, ltb, List, [], ◌∷◌, ◌++◌, Option, none,
  some, length, drop,
}
use promate.Text.{Bytes, codes, text_eq}

abbrev pub regexp_cache_max_len : ℕ
regexp_cache_max_len = 10000

-- V is what `regexp.Compile` returns, an expression or an error.
pub record RegexpCache (V : Type 0) : Type 0 where
  pub requests : ℕ
  pub misses : ℕ
  pub m : List (Bytes × V)

abbrev pub Entries : Type 0 → Type 0
Entries V = List (Bytes × V)

-- The counters are unsigned 64-bit integers.
count : ℕ → ℕ
count n = (n + 1) % 2 ^ 64

module _ {V : Type 0} where
  unfoldable pub find : Bytes → Entries V → Option V
  unfolding text_eq
  find re [] = none
  find re ((k, v) ∷ m) = if text_eq k re then some v else find re m

  -- `m[re] = v`.
  unfoldable pub store : Bytes → V → Entries V → Entries V
  unfolding text_eq
  store re v [] = (re, v) ∷ []
  store re v ((k, w) ∷ m) = if text_eq k re then (k, v) ∷ m else (k, w) ∷ store re v m

  -- The counters and the result behind the lookup.
  counted : RegexpCache V → Option V → RegexpCache V × Option V
  unfolding count
  counted rc (some v) = (
    record {
      requests = count (RegexpCache.requests rc);
      misses = RegexpCache.misses rc;
      m = RegexpCache.m rc;
    },
    some v,
  )
  counted rc none = (
    record {
      requests = count (RegexpCache.requests rc);
      misses = count (RegexpCache.misses rc);
      m = RegexpCache.m rc;
    },
    none,
  )

  unfoldable pub get : RegexpCache V → Bytes → RegexpCache V × Option V
  unfolding find counted
  get rc re = counted rc (find re (RegexpCache.m rc))

  unfoldable pub len : RegexpCache V → ℕ
  len rc = length (RegexpCache.m rc)

  -- `shuffle` is the order in which Go visits the entries; the first ones visited go, a tenth of
  -- those that are there.
  unfoldable pub evict : (Entries V → Entries V) → Entries V → Entries V
  evict shuffle m =
      if ltb regexp_cache_max_len (length m) then drop (length m / 10) (shuffle m) else m

  unfoldable pub put : (Entries V → Entries V) → RegexpCache V → Bytes → V → RegexpCache V
  unfolding evict store
  put shuffle rc re v = record {
    requests = RegexpCache.requests rc;
    misses = RegexpCache.misses rc;
    m = store re v (evict shuffle (RegexpCache.m rc));
  }

  -- What is found is returned; what is not is compiled and put into the cache.
  compile_missing :
      (Entries V → Entries V) → (Bytes → V) → Bytes → RegexpCache V × Option V → RegexpCache V × V
  unfolding put
  compile_missing shuffle compile re (rc, some v) = (rc, v)
  compile_missing shuffle compile re (rc, none) = (put shuffle rc re (compile re), compile re)

  unfoldable pub compile_regexp :
      (Entries V → Entries V) → (Bytes → V) → RegexpCache V → Bytes → RegexpCache V × V
  unfolding get compile_missing
  compile_regexp shuffle compile rc re = compile_missing shuffle compile re (get rc re)

  unfoldable pub compile_regexp_anchored :
      (Entries V → Entries V) → (Bytes → V) → RegexpCache V → Bytes → RegexpCache V × V
  unfolding compile_regexp
  compile_regexp_anchored shuffle compile rc re =
      compile_regexp shuffle compile rc ((codes "^(?:" ++ re) ++ codes ")$")
