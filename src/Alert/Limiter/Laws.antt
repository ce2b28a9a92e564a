-- ===== src/Alert/Limiter/Laws.antt =====
-- How many alerts of one key pass in a stretch of time, whatever else the engine handles.
use redis_watcher.Base.{
  ℕ, ◌+◌, ◌-◌, ◌*◌, ◌≤◌, ◌<◌, Bool, true, false, List, [], ◌∷◌, Option, none, some, ◌≡◌, refl,
  arith, ◌&&◌, ◌⊎◌, inl, inr, ◌∙◌,
}
use Prim.Native.Nat.{min}
use redis_watcher.Base.Bytes.{Bytes, eq_bytes, eq_bytes_iff, eq_bytes_refl}
use redis_watcher.Base.Dict.{lookup, lookup-insert}
use redis_watcher.Base.Lists.{All}
use redis_watcher.Base.Tests.{ltb, leb, if◌then◌else◌, Bool-cases, Option-cases}
use redis_watcher.Alert.Limiter.{Bucket, Rates, fresh, bucket_step, allow_key}

-- A request is a key and an instant. The number of requests of `k` that pass, in order.
pub record Request : Type 0 where
  pub key : Bytes
  pub time : ℕ

abbrev pub request : Bytes → ℕ → Request
request k now = record { key = k; time = now }

abbrev one_if : Bool → ℕ
one_if b = if b then 1 else 0

module _ (window most : ℕ) where
  unfoldable pub passes : Bytes → Rates → List Request → ℕ
  passes k rates [] = 0
  passes k rates (r ∷ rs) =
      let (rates', passed) = allow_key window most rates r.key r.time in
      one_if (passed && eq_bytes r.key k) + passes k rates' rs

  unfoldable pub requests : Bytes → List Request → ℕ
  requests k [] = 0
  requests k (r ∷ rs) = one_if (eq_bytes r.key k) + requests k rs

  abbrev pub Within : ℕ → List Request → Type 0
  Within lo = All (λ r. (lo ≤ r.time) × (r.time ≤ lo + window))

  -- One request, seen from the bucket of `k`.
  lookup-allow_key :
      (k : Bytes) (rates : Rates) (j : Bytes) (now : ℕ)
      → lookup k (allow_key window most rates j now).0 ≡ (
          if eq_bytes j k
          then some (bucket_step window most now (lookup k rates)).0
          else lookup k rates)
  unfolding allow_key
  lookup-allow_key k rates j now = ground (
    arith,
    lookup-insert j k (bucket_step window most now (lookup j rates)).0 rates,
    eq_bytes_iff j k,
  )

  passed-allow_key :
      (k : Bytes) (rates : Rates) (j : Bytes) (now : ℕ)
      → eq_bytes j k ≡ true
      → (allow_key window most rates j now).1 ≡ (bucket_step window most now (lookup k rates)).1
  unfolding allow_key
  passed-allow_key k rates j now h = ground (arith, eq_bytes_iff j k)

  bucket_open :
      (b : Bucket) (now : ℕ)
      → now ≤ b.window_start + window
      → (bucket_step window most now (some b) ≡ (b, false)) × (most ≤ b.count)
        ⊎ (bucket_step window most now (some b) ≡ (record b { count = b.count + 1 }, true))
          × (b.count < most)
  unfolding bucket_step
  bucket_open b now h = elim (Bool-cases (leb most b.count)) [
    | inl full ↦ inl (ground arith, ground arith)
    | inr room ↦ inr (ground arith, ground arith)
  ]

  -- One request of another key changes nothing for `k`; one of `k` steps its bucket.
  passes-other :
      (k : Bytes) (rates : Rates) (r : Request) (rs : List Request)
      → eq_bytes r.key k ≡ false
      → (passes k rates (r ∷ rs) ≡ passes k (allow_key window most rates r.key r.time).0 rs)
        × (lookup k (allow_key window most rates r.key r.time).0 ≡ lookup k rates)
        × (requests k (r ∷ rs) ≡ requests k rs)
  unfolding passes requests
  passes-other k rates r rs h =
      (ground arith, ground (arith, lookup-allow_key k rates r.key r.time), ground arith)

  passes-same :
      (k : Bytes) (rates : Rates) (r : Request) (rs : List Request) (b : Bucket) (passed : Bool)
      → eq_bytes r.key k ≡ true
      → bucket_step window most r.time (lookup k rates) ≡ (b, passed)
      → (passes k rates (r ∷ rs)
          ≡ one_if passed + passes k (allow_key window most rates r.key r.time).0 rs)
        × (lookup k (allow_key window most rates r.key r.time).0 ≡ some b)
        × (requests k (r ∷ rs) ≡ 1 + requests k rs)
  unfolding passes requests
  passes-same k rates r rs b passed h s = (
    ground (arith, passed-allow_key k rates r.key r.time),
    ground (arith, lookup-allow_key k rates r.key r.time),
    ground arith,
  )

  -- In an open window the requests of `k` pass until the limit is reached, and then none does.
  passes_open :
      (k : Bytes) (rs : List Request) (rates : Rates) (b : Bucket)
      → lookup k rates ≡ some b
      → All (λ r. r.time ≤ b.window_start + window) rs
      → passes k rates rs ≡ min (requests k rs) (most - b.count)
  passes_open k [] rates b e h = unfold passes requests in omega arith
  passes_open k (r ∷ rs) rates b e h = elim (Bool-cases (eq_bytes r.key k)) [
    | inr ne ↦
        let (p, l, n) = passes-other k rates r rs ne in
        p ∙ passes_open k rs (allow_key window most rates r.key r.time).0 b (l ∙ e) h.1 ∙ rw n
    | inl eq ↦
        let rates' = (allow_key window most rates r.key r.time).0 in
        elim (bucket_open b r.time h.0) [
          | inl (s, full) ↦
              let (p, l, n) = passes-same k rates r rs b false eq (rw e s) in
              omega (arith, p, n, passes_open k rs rates' b l h.1)
          | inr (s, room) ↦
              let b' = record b { count = b.count + 1 } in
              let (p, l, n) = passes-same k rates r rs b' true eq (rw e s) in
              omega (arith, p, n, passes_open k rs rates' b' l h.1)
        ]
  ]

  -- What a request finds: a window that it opens, or one that is still open.
  bucket_any :
      (o : Option Bucket) (now : ℕ)
      → (bucket_step window most now o ≡ (fresh now, true))
        ⊎ ((b : Bucket) × (o ≡ some b) × (now ≤ b.window_start + window))
  unfolding bucket_step
  bucket_any none now = inl refl
  bucket_any (some b) now = elim (Bool-cases (ltb (b.window_start + window) now)) [
    | inl late ↦ inl (ground arith)
    | inr early ↦ inr (b, refl, ground arith)
  ]

  abbrev room : Option Bucket → ℕ
  room none = most
  room (some b) = most - b.count

  room-le : (k : Bytes) (rates : Rates) → room (lookup k rates) ≤ most
  room-le k rates = elim (Option-cases (lookup k rates)) [
    | inl e ↦ rw e (omega arith)
    | inr (b, e) ↦ rw e (omega arith)
  ]

  bucket_step-expired :
      (o : Option Bucket) (now : ℕ)
      → (o ≡ none) ⊎ ((b : Bucket) × (o ≡ some b) × (b.window_start + window < now))
      → bucket_step window most now o ≡ (fresh now, true)
  unfolding bucket_step
  bucket_step-expired o now h = ground arith

  Within-open :
      (lo now : ℕ) (rs : List Request)
      → lo ≤ now
      → Within lo rs
      → All (λ r. r.time ≤ now + window) rs
  Within-open lo now [] h w = tt
  Within-open lo now (r ∷ rs) h w = (omega arith, Within-open lo now rs h w.1)

  passes-le :
      (k : Bytes) (rs : List Request) (rates : Rates) (lo : ℕ)
      → 0 < most
      → Within lo rs
      → passes k rates rs ≤ most + room (lookup k rates)
  passes-le k [] rates lo m h = unfold passes in omega arith
  passes-le k (r ∷ rs) rates lo m h =
      let rates' = (allow_key window most rates r.key r.time).0 in
      elim (Bool-cases (eq_bytes r.key k)) [
        | inr ne ↦
            let (p, l, n) = passes-other k rates r rs ne in
            rw p (rw l at (passes-le k rs rates' lo m h.1))
        | inl eq ↦ elim (bucket_any (lookup k rates) r.time) [
          | inl s ↦
              let b' = fresh r.time in
              let (p, l, n) = passes-same k rates r rs b' true eq s in
              omega (arith, p, passes_open k rs rates' b' l (Within-open lo r.time rs h.0.0 h.1))
          | inr (b, e, early) ↦ elim (bucket_open b r.time early) [
            | inl (s, full) ↦
                let (p, l, n) = passes-same k rates r rs b false eq (rw e s) in
                rw e (omega (arith, p, rw l at (passes-le k rs rates' lo m h.1)))
            | inr (s, open_room) ↦
                let b' = record b { count = b.count + 1 } in
                let (p, l, n) = passes-same k rates r rs b' true eq (rw e s) in
                rw e (omega (arith, p, rw l at (passes-le k rs rates' lo m h.1)))
          ]
        ]
      ]

  -- However the requests of all keys are mixed, and whatever happened before: of the requests of
  -- one key whose instants lie within one window's length, at most twice the limit pass.
  pub passes-le-double :
      (k : Bytes) (rs : List Request) (rates : Rates) (lo : ℕ)
      → 0 < most
      → Within lo rs
      → passes k rates rs ≤ 2 * most
  passes-le-double k rs rates lo m h = omega (arith, passes-le k rs rates lo m h, room-le k rates)

  -- A request that opens a window passes, and of the later ones of its key in that window exactly
  -- the first most - 1 pass: no alert is held back before the limit is reached, none gets past it,
  -- and requests of other keys between them make no difference.
  pub passes_first_window :
      (k : Bytes) (rates : Rates) (now : ℕ) (rs : List Request)
      → (lookup k rates ≡ none)
        ⊎ ((b : Bucket) × (lookup k rates ≡ some b) × (b.window_start + window < now))
      → All (λ r. r.time ≤ now + window) rs
      → passes k rates (request k now ∷ rs) ≡ 1 + min (requests k rs) (most - 1)
  passes_first_window k rates now rs old h =
      let b = fresh now in
      let (p, l, n) =
        passes-same k rates (request k now) rs b true (eq_bytes_refl k)
          (bucket_step-expired (lookup k rates) now old) in
      omega (arith, p, passes_open k rs _ b l h)
