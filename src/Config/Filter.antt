-- ===== src/Config/Filter.antt =====
-- The set of ignored commands.
use redis_watcher.Base.{true, List, [], ◌∷◌, ◌≡◌, ◌≢◌, ◌↔◌, ◌⊎◌, inl, inr, refl, arith, sym}
use redis_watcher.Base.Bytes.{Bytes, is_empty, eq_bytes, eq_bytes_iff}
use redis_watcher.Base.Tests.{if◌then◌else◌, Bool-cases}
use redis_watcher.Go.Text.{Unicode, to_upper, trim_space}
use redis_watcher.Config.{ignored_set, contains}

-- A listed command stands for this name.
abbrev pub Names : Unicode → Bytes → List Bytes → Type 0
Names u name [] = ⊥
Names u name (c ∷ cs) = (to_upper u (trim_space u c) ≡ name) ⊎ Names u name cs

contains-first :
    (d name : Bytes) (set : List Bytes)
    → name ≢ []
    → (contains (if is_empty d then set else d ∷ set) name ≡ true)
      ↔ ((d ≡ name) ⊎ (contains set name ≡ true))
contains-first [] name set h =
    (λ k. inr k, λ k. elim k [ inl e ↦ absurd (h (sym e)) | inr k' ↦ k' ])
contains-first (x ∷ d) name set h = (
  λ k. elim (Bool-cases (eq_bytes name (x ∷ d))) [
    | inl same ↦ inl (sym ((eq_bytes_iff name (x ∷ d)).0 same))
    | inr other ↦ inr (rw other at k)
  ],
  λ k. elim k [
    | inl same ↦ rw ((eq_bytes_iff name (x ∷ d)).1 (sym same)) refl
    | inr k' ↦ ground arith
  ],
)

-- A command that is not empty is in the set exactly when a listed one, trimmed and in upper case,
-- is the same.
pub ignored_set-contains :
    (u : Unicode) (name : Bytes) (cs : List Bytes)
    → name ≢ []
    → (contains (ignored_set u cs) name ≡ true) ↔ Names u name cs
unfolding ignored_set
ignored_set-contains u name [] h = (λ k. cc, λ k. absurd k)
ignored_set-contains u name (c ∷ cs) h =
    let (to, from) = contains-first (to_upper u (trim_space u c)) name (ignored_set u cs) h in
    let (ih, ih') = ignored_set-contains u name cs h in
    (
      λ k. elim (to k) [ inl e ↦ inl e | inr k' ↦ inr (ih k') ],
      λ k. elim k [ inl e ↦ from (inl e) | inr k' ↦ from (inr (ih' k')) ],
    )
