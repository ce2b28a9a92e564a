-- ===== src/Alert/Rendered.antt =====
-- internal/alert/alert.go: `Renderer`, the text of an alert. `time.Format` is given. An alert of the
-- engine always has its event.
use redis_watcher.Base.{
  ℕ, suc, zero, ◌≤◌, true, List, [], ◌∷◌, ◌++◌, ◌≡◌, refl, arith, inl, inr, ap,
}
use redis_watcher.Base.Bytes.{Bytes, codes}
use redis_watcher.Base.Lists.{length, take, length-append}
use redis_watcher.Base.Tests.{ltb, if◌then◌else◌, Bool-cases}
use redis_watcher.Alert.Engine.{Alert}
use redis_watcher.Event.{Time, command_line}
use redis_watcher.Go.Int.{itoa_ℤ}

-- The three bytes of the ellipsis.
abbrev pub ellipsis : Bytes
ellipsis = 226 ∷ 128 ∷ 166 ∷ []

unfoldable pub shorten : Bytes → Bytes
shorten line = if ltb 512 (length line) then take 512 line ++ ellipsis else line

unfoldable pub head_lines : (Time → Bytes) → Alert → Bytes
head_lines format_time a =
    codes "[Redis Watcher] "
    ++ (a.reason
        ++ (b'\n' ∷ codes "time: "
            ++ (format_time a.timestamp
                ++ (b'\n' ∷ codes "command: "
                    ++ (a.command
                        ++ (b'\n' ∷ codes "source: "
                            ++ (a.source
                                ++ (codes " (db "
                                    ++ (itoa_ℤ a.db ++ (codes ")" ++ b'\n' ∷ []))))))))))

unfoldable pub renderer : (Time → Bytes) → Alert → Bytes
unfolding head_lines shorten
renderer format_time a =
    head_lines format_time a ++ (codes "raw: " ++ shorten (command_line a.event))

take-take :
    {A : Type 0} (n : ℕ) (xs ys : List A)
    → length (take n xs) ≡ n
    → take n (take n xs ++ ys) ≡ take n xs
take-take zero xs ys h = refl
take-take (suc n) [] ys h = absurd (omega (arith, h))
take-take (suc n) (x ∷ xs) ys h = ap (◌∷◌ x) (take-take n xs ys (omega (arith, h)))

length-take : {A : Type 0} (n : ℕ) (xs : List A) → n ≤ length xs → length (take n xs) ≡ n
length-take zero xs h = refl
length-take (suc n) [] h = omega (arith, h)
length-take (suc n) (x ∷ xs) h = omega (arith, length-take n xs (omega (arith, h)))

shorten-long :
    (line : Bytes)
    → ltb 512 (length line) ≡ true
    → (length (take 512 line ++ ellipsis) ≤ 515)
      × (take 512 (take 512 line ++ ellipsis) ≡ take 512 line)
shorten-long line long =
    let cut = length-take 512 line (ground arith) in
    (omega (arith, length-append (take 512 line) ellipsis, cut), take-take 512 line ellipsis cut)

-- The text ends with the command line as the rules see it, shortened: it takes at most 515 bytes,
-- however long the command, and has the line's first 512 bytes.
pub renderer-bound :
    (format_time : Time → Bytes) (a : Alert)
    → (raw : Bytes) × (renderer format_time a ≡ head_lines format_time a ++ (codes "raw: " ++ raw))
      × (length raw ≤ 515)
      × (take 512 raw ≡ take 512 (command_line a.event))
unfolding renderer
renderer-bound format_time a = elim (Bool-cases (ltb 512 (length (command_line a.event)))) [
  | inl long ↦
      let (short, same) = shorten-long (command_line a.event) long in
      (
        take 512 (command_line a.event) ++ ellipsis,
        ap (λ x. head_lines format_time a ++ (codes "raw: " ++ x)) (unfold shorten in rw long refl),
        short,
        same,
      )
  | inr whole ↦ (
    command_line a.event,
    ap (λ x. head_lines format_time a ++ (codes "raw: " ++ x)) (unfold shorten in rw whole refl),
    ground arith,
    refl,
  )
]
