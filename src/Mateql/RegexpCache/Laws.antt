-- ===== src/Mateql/RegexpCache/Laws.antt =====
-- The cache of mateql/regexp_cache.go is transparent and stays bounded.
use promate.Base.{
  ℕ, ◌+◌, ◌/◌, ◌≤◌, ◌≡◌, refl, ap, sym, ltb, [], ◌∷◌, some, length, drop, length-drop, All,
  Bool-cases, Option-cases, inl, inr, arith, ltb→lt, zero, suc,
}
use promate.Text.{Bytes, text_eq}
use promate.Text.Laws.{text_eq_iff}
use promate.Mateql.RegexpCache.{
  counted, compile_missing, Entries, RegexpCache, find, store, evict, get, put, compile_regexp, len,
  regexp_cache_max_len,
}

-- Go visits every entry of a map once, in some order.
pub record VisitsAll {V : Type 0} (shuffle : Entries V → Entries V) : Type 1 where
  pub length-shuffle : (m : Entries V) → length (shuffle m) ≡ length m
  pub All-shuffle : (P : Bytes × V → Type 0) (m : Entries V) → All P m → All P (shuffle m)

module _ {V : Type 0} (shuffle : Entries V → Entries V) (compile : Bytes → V) where
  abbrev IsCompiled : Bytes × V → Type 0
  IsCompiled (k, v) = v ≡ compile k

  -- Every entry holds what its key compiles to, and the cache is no longer than the bound and one.
  unfoldable pub Valid : RegexpCache V → Type 0
  unfolding len
  Valid rc = All IsCompiled (RegexpCache.m rc) × (len rc ≤ regexp_cache_max_len + 1)

  All-drop : (n : ℕ) (m : Entries V) → All IsCompiled m → All IsCompiled (drop n m)
  All-drop zero m h = h
  All-drop (suc n) [] h = tt
  All-drop (suc n) (e ∷ m) (h, hs) = All-drop n m hs

  All-store :
      (re : Bytes) (m : Entries V) → All IsCompiled m → All IsCompiled (store re (compile re) m)
  unfolding store
  All-store re [] h = (refl, tt)
  All-store re ((k, w) ∷ m) (h, hs) = elim (Bool-cases (text_eq k re)) [
    | inl t ↦ rw t (ap compile (sym ((text_eq_iff k re).0 t)), hs)
    | inr f ↦ rw f (h, All-store re m hs)
  ]

  length-store-le : (re : Bytes) (v : V) (m : Entries V) → length (store re v m) ≤ length m + 1
  unfolding store
  length-store-le re v [] = omega arith
  length-store-le re v ((k, w) ∷ m) = ground (arith, length-store-le re v m)

  find-compile :
      (re : Bytes) (m : Entries V) (v : V) → All IsCompiled m → find re m ≡ some v → v ≡ compile re
  unfolding find
  find-compile re [] v h e = cc
  find-compile re ((k, w) ∷ m) v (h, hs) e = elim (Bool-cases (text_eq k re)) [
    | inl t ↦
        let found : some w ≡ some v = ground (arith, e, t) in cc (h, (text_eq_iff k re).0 t, found)
    | inr f ↦ find-compile re m v hs (ground (arith, e, f))
  ]

  evict-Valid :
      VisitsAll shuffle
      → (m : Entries V) → All IsCompiled m
      → length m ≤ regexp_cache_max_len + 1
      → All IsCompiled (evict shuffle m) × (length (evict shuffle m) ≤ regexp_cache_max_len)
  unfolding evict
  evict-Valid order m h b = elim (Bool-cases (ltb regexp_cache_max_len (length m))) [
    | inl t ↦ rw t (
      All-drop (length m / 10) (shuffle m) (VisitsAll.All-shuffle order IsCompiled m h),
      omega (
        arith,
        b,
        ltb→lt _ _ t,
        length-drop (length m / 10) (shuffle m),
        VisitsAll.length-shuffle order m,
      ),
    )
    | inr f ↦ rw f (h, ground (arith, f))
  ]

  -- Where Go visits each entry of a map once and every entry of the cache holds what its key compiles
  -- to, a call returns what compiling the expression returns. The new entries are as good, and the
  -- cache never has more than 10001 of them.
  pub compile_regexp_lem :
      VisitsAll shuffle
      → (rc : RegexpCache V) (re : Bytes) → Valid rc
      → ((compile_regexp shuffle compile rc re).1 ≡ compile re)
        × Valid ((compile_regexp shuffle compile rc re).0)
  unfolding compile_regexp compile_missing get counted put Valid len
  compile_regexp_lem order rc re (h, b) = elim (Option-cases (find re (RegexpCache.m rc))) [
    | inl e ↦ rw e (
        let (c, l) = evict-Valid order (RegexpCache.m rc) h b in
        (
          refl,
          (
            All-store re _ c,
            omega (arith, l, length-store-le re (compile re) (evict shuffle (RegexpCache.m rc))),
          ),
        ))
    | inr (v, e) ↦ rw e (find-compile re (RegexpCache.m rc) v h e, (h, b))
  ]
