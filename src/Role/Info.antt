-- ===== src/Role/Info.antt =====
-- The role line found in a reply to `INFO replication`.
use redis_watcher.Base.{List, [], ◌∷◌, ◌++◌, none, ◌≡◌, refl, arith, ap, ◌∙◌}
use redis_watcher.Base.Bytes.{Bytes, codes}
use redis_watcher.Base.Lists.{All, All-append}
use redis_watcher.Base.Results.{ok}
use redis_watcher.Go.Text.{
  Unicode, trim_space, strip_prefix, split_crlf, join_crlf, split_crlf-join_crlf, LacksCrlf,
}
use redis_watcher.Role.{find_role, parse_role_from_info, role_of}

-- Lines that are not the role's.
abbrev pub Others : List Bytes → Type 0
Others = All (λ l. strip_prefix (codes "role:") l ≡ none)

find_role-skips :
    (u : Unicode) (before lines : List Bytes)
    → Others before
    → find_role u (before ++ lines) ≡ find_role u lines
unfolding find_role strip_prefix
find_role-skips u [] lines h = refl
find_role-skips u (l ∷ before) lines h = rw h.0 (find_role-skips u before lines h.1)

find_role-line :
    (u : Unicode) (v : Bytes) (after : List Bytes)
    → find_role u ((codes "role:" ++ v) ∷ after) ≡ ok (role_of (trim_space u v))
unfolding find_role strip_prefix
find_role-line u v after = refl

lines-LacksCrlf :
    (before after : List Bytes) (v : Bytes)
    → All LacksCrlf before
    → LacksCrlf v
    → All LacksCrlf after
    → All LacksCrlf (before ++ (codes "role:" ++ v) ∷ after)
lines-LacksCrlf before after v b h a =
    All-append LacksCrlf before ((codes "role:" ++ v) ∷ after) b (
      (
        λ e. omega arith,
        (λ e. omega arith, (λ e. omega arith, (λ e. omega arith, (λ e. omega arith, h)))),
      ),
      a,
    )

-- A reply is made of lines that end in CR LF. Its role is the value of the first role line, wherever
-- that stands and whatever follows it.
pub parse_role_from_info-join_crlf :
    (u : Unicode) (before after : List Bytes) (v : Bytes)
    → Others before
    → All LacksCrlf before
    → LacksCrlf v
    → All LacksCrlf after
    → parse_role_from_info u (join_crlf (before ++ (codes "role:" ++ v) ∷ after))
      ≡ ok (role_of (trim_space u v))
unfolding parse_role_from_info
parse_role_from_info-join_crlf u before after v o b h a =
    ap (find_role u) (lines_back before (lines-LacksCrlf before after v b h a))
    ∙ find_role-skips u before _ o
    ∙ find_role-line u v after
  where
    lines_back :
        (bs : List Bytes)
        → All LacksCrlf (bs ++ (codes "role:" ++ v) ∷ after)
        → split_crlf (join_crlf (bs ++ (codes "role:" ++ v) ∷ after))
          ≡ bs ++ (codes "role:" ++ v) ∷ after
    lines_back [] k = split_crlf-join_crlf (codes "role:" ++ v) after k
    lines_back (l ∷ bs) k = split_crlf-join_crlf l (bs ++ (codes "role:" ++ v) ∷ after) k
