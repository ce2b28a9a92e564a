-- ===== src/Go/Text.antt =====
-- Package strings, as far as the source calls it.
use redis_watcher.Base.{
  ℕ, ◌+◌, ◌-◌, Bool, true, false, ◌&&◌, ◌||◌, List, [], ◌∷◌, ap, ◌∙◌, ◌++◌, map, ◌≡◌, ◌≢◌, refl,
  arith, Option, none, some, inl, inr,
}
use redis_watcher.Base.Bytes.{Bytes, is_empty}
use redis_watcher.Base.Lists.{any, all, All}
use redis_watcher.Base.Tests.{ltb, leb, ◌==◌, if◌then◌else◌, Bool-cases, Option-cases}

-- The parts of package strings that need Unicode's tables: `strings.Map(unicode.ToUpper, s)`,
-- `strings.Map(unicode.ToLower, s)` and `strings.TrimFunc(s, unicode.IsSpace)`. They are asked
-- only for a text that holds a byte above 127.
pub record Unicode : Type 0 where
  pub map_upper : Bytes → Bytes
  pub map_lower : Bytes → Bytes
  pub trim_func : Bytes → Bytes

abbrev pub is_ascii : Bytes → Bool
is_ascii = all (λ c. ltb c 128)

unfoldable pub upper_byte : ℕ → ℕ
upper_byte c = if leb b'a' c && leb c b'z' then c - 32 else c

unfoldable pub lower_byte : ℕ → ℕ
lower_byte c = if leb b'A' c && leb c b'Z' then c + 32 else c

unfoldable pub to_upper : Unicode → Bytes → Bytes
to_upper u s = if is_ascii s then map upper_byte s else u.map_upper s

unfoldable pub to_lower : Unicode → Bytes → Bytes
to_lower u s = if is_ascii s then map lower_byte s else u.map_lower s

-- `i := strings.IndexByte(s, c)` with the slices `s[:i]` and `s[i+1:]`; `none` where i is -1.
unfoldable pub cut : ℕ → Bytes → Option (Bytes × Bytes)
cut c [] = none
cut c (x ∷ xs) =
    if x == c
    then some ([], xs)
    else elim (cut c xs) [ none ↦ none | some (a, b) ↦ some (x ∷ a, b) ]

-- The same with `strings.LastIndexByte`.
unfoldable pub cut_last : ℕ → Bytes → Option (Bytes × Bytes)
cut_last c [] = none
cut_last c (x ∷ xs) = elim (cut_last c xs) [
  | some (a, b) ↦ some (x ∷ a, b)
  | none ↦ if x == c then some ([], xs) else none
]

-- `strings.TrimLeft` and `TrimRight`, the cutset as a test.
unfoldable pub trim_left : (ℕ → Bool) → Bytes → Bytes
trim_left p [] = []
trim_left p (x ∷ xs) = if p x then trim_left p xs else x ∷ xs

unfoldable pub trim_right : (ℕ → Bool) → Bytes → Bytes
trim_right p [] = []
trim_right p (x ∷ xs) = let r = trim_right p xs in if is_empty r && p x then [] else x ∷ r

abbrev pub is_space : ℕ → Bool
is_space c = c == b' ' || (leb 9 c && leb c 13)

unfoldable pub trim_space : Unicode → Bytes → Bytes
trim_space u s = if is_ascii s then trim_right is_space (trim_left is_space s) else u.trim_func s

-- `strings.HasPrefix` with `strings.TrimPrefix`: what follows the prefix, `none` without it.
unfoldable pub strip_prefix : Bytes → Bytes → Option Bytes
strip_prefix [] s = some s
strip_prefix (p ∷ ps) [] = none
strip_prefix (p ∷ ps) (x ∷ xs) = if p == x then strip_prefix ps xs else none

-- `strings.ContainsAny`, the characters as a test.
abbrev pub contains_any : (ℕ → Bool) → Bytes → Bool
contains_any = any

abbrev pub Lacks : ℕ → Bytes → Type 0
Lacks b = All (λ c. c ≢ b)

pub cut_at : (c : ℕ) (a b : Bytes) → Lacks c a → cut c (a ++ c ∷ b) ≡ some (a, b)
unfolding cut
cut_at c [] b h = ground arith
cut_at c (x ∷ a) b h = ground (arith, cut_at c a b h.1)

pub cut_last-Lacks : (c : ℕ) (a : Bytes) → Lacks c a → cut_last c a ≡ none
unfolding cut_last
cut_last-Lacks c [] h = refl
cut_last-Lacks c (x ∷ a) h = ground (arith, cut_last-Lacks c a h.1)

pub cut_last_at : (c : ℕ) (a b : Bytes) → Lacks c b → cut_last c (a ++ c ∷ b) ≡ some (a, b)
unfolding cut_last
cut_last_at c [] b h = ground (arith, cut_last-Lacks c b h)
cut_last_at c (x ∷ a) b h = ground (arith, cut_last_at c a b h)

pub strip_prefix-append : (p s : Bytes) → strip_prefix p (p ++ s) ≡ some s
unfolding strip_prefix
strip_prefix-append [] s = refl
strip_prefix-append (x ∷ p) s = ground (arith, strip_prefix-append p s)

-- A byte outside the cutset stops the trimming.
pub trim_right-append :
    (p : ℕ → Bool) (s t : Bytes) (c : ℕ)
    → p c ≡ false
    → trim_right p (s ++ c ∷ t) ≡ s ++ c ∷ trim_right p t
unfolding trim_right
trim_right-append p [] t c h = ground arith
trim_right-append p (x ∷ []) t c h = ground (arith, trim_right-append p [] t c h)
trim_right-append p (x ∷ y ∷ s) t c h = ground (arith, trim_right-append p (y ∷ s) t c h)

pub trim_right-all : (p : ℕ → Bool) (t : Bytes) → all p t ≡ true → trim_right p t ≡ []
unfolding trim_right
trim_right-all p [] h = refl
trim_right-all p (x ∷ t) h = ground (arith, trim_right-all p t)

pub trim_right_keep :
    (p : ℕ → Bool) (s t : Bytes)
    → All (λ c. p c ≡ false) s
    → all p t ≡ true
    → trim_right p (s ++ t) ≡ s
unfolding trim_right
trim_right_keep p [] t hs ht = trim_right-all p t ht
trim_right_keep p (x ∷ s) t hs ht = rw (trim_right_keep p s t hs.1 ht) (ground arith)

-- What a successful cut says of the text.
pub cut-eq-some :
    (c : ℕ) (s : Bytes) {a b : Bytes} → cut c s ≡ some (a, b) → (s ≡ a ++ c ∷ b) × Lacks c a
unfolding cut
cut-eq-some c [] h = cc
cut-eq-some c (x ∷ s) {a} {b} h = elim (Bool-cases (x == c)) [
  | inl e ↦ ground arith
  | inr e ↦ elim (Option-cases (cut c s)) [
    | inl n ↦ ground arith
    | inr (p, q) ↦ ground (arith, cut-eq-some c s {a = p.0} {b = p.1} q)
  ]
]

-- `strings.Split(s, "\r\n")`.
abbrev push_byte : ℕ → List Bytes → List Bytes
push_byte c [] = (c ∷ []) ∷ []
push_byte c (l ∷ ls) = (c ∷ l) ∷ ls

unfoldable pub split_crlf : Bytes → List Bytes
split_crlf [] = [] ∷ []
split_crlf (c ∷ []) = (c ∷ []) ∷ []
split_crlf (c ∷ d ∷ s) = elim (c == b'\r' && d == b'\n') [
  | true ↦ [] ∷ split_crlf s
  | false ↦ push_byte c (split_crlf (d ∷ s))
]

-- Two bytes next to each other.
abbrev pub LacksCrlf : Bytes → Type 0
LacksCrlf [] = Unit
LacksCrlf (c ∷ s) = (c ≢ b'\r') × LacksCrlf s

-- Lines without a carriage return, put together again.
unfoldable pub join_crlf : List Bytes → Bytes
join_crlf [] = []
join_crlf (l ∷ []) = l
join_crlf (l ∷ m ∷ ls) = l ++ b'\r' ∷ b'\n' ∷ join_crlf (m ∷ ls)

split_crlf-cons : (c : ℕ) (s : Bytes) → c ≢ b'\r' → split_crlf (c ∷ s) ≡ push_byte c (split_crlf s)
unfolding split_crlf
split_crlf-cons c [] h = refl
split_crlf-cons c (d ∷ s) h = ground arith

split_crlf-line :
    (l s : Bytes) → LacksCrlf l → split_crlf (l ++ b'\r' ∷ b'\n' ∷ s) ≡ l ∷ split_crlf s
split_crlf-line [] s h = unfold split_crlf in refl
split_crlf-line (c ∷ l) s h =
    split_crlf-cons c (l ++ b'\r' ∷ b'\n' ∷ s) h.0 ∙ ap (push_byte c) (split_crlf-line l s h.1)

split_crlf-last : (l : Bytes) → LacksCrlf l → split_crlf l ≡ l ∷ []
split_crlf-last [] h = unfold split_crlf in refl
split_crlf-last (c ∷ l) h = split_crlf-cons c l h.0 ∙ ap (push_byte c) (split_crlf-last l h.1)

pub split_crlf-join_crlf :
    (l : Bytes) (ls : List Bytes)
    → All LacksCrlf (l ∷ ls)
    → split_crlf (join_crlf (l ∷ ls)) ≡ l ∷ ls
unfolding join_crlf
split_crlf-join_crlf l [] h = split_crlf-last l h.0
split_crlf-join_crlf l (m ∷ ls) h =
    split_crlf-line l (join_crlf (m ∷ ls)) h.0 ∙ ap (◌∷◌ l) (split_crlf-join_crlf m ls h.1)
