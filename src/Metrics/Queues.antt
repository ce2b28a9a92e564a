-- ===== src/Metrics/Queues.antt =====
-- internal/metrics/collectors.go: the collector of queue depths. A queue's depth function is the
-- depth that it returns at the scrape.
use redis_watcher.Base.{
  ℕ, Bool, true, false, not, ◌&&◌, ◌||◌, List, [], ◌∷◌, ◌++◌, ◌≡◌, refl, arith, ap,
}
use redis_watcher.Base.Bytes.{Bytes, eq_bytes}
use redis_watcher.Base.Lists.{any}
use redis_watcher.Metrics.Registered.{taken, distinct}

pub record QueueRef : Type 0 where
  pub name : Bytes
  pub depth : ℕ
  pub capacity : ℕ

pub data Desc : Type 0 where
  depth_desc cap_desc : Desc

pub record Sample : Type 0 where
  pub desc : Desc
  pub value : ℕ
  pub queue : Bytes

-- `Add`
unfoldable pub add : Bytes → ℕ → ℕ → List QueueRef → List QueueRef
add n d c queues = queues ++ record { name = n; depth = d; capacity = c } ∷ []

unfoldable pub collect : List QueueRef → List Sample
collect [] = []
collect (r ∷ queues) =
    record { desc = depth_desc; value = r.depth; queue = r.name }
    ∷ record { desc = cap_desc; value = r.capacity; queue = r.name }
    ∷ collect queues

abbrev same_desc : Desc → Desc → Bool
same_desc depth_desc depth_desc = true
same_desc cap_desc cap_desc = true
same_desc _ _ = false

-- Two samples of one description and label make Prometheus refuse the whole scrape.
abbrev clashes : Sample → Sample → Bool
clashes s t = same_desc s.desc t.desc && eq_bytes s.queue t.queue

abbrev pub consistent : List Sample → Bool
consistent [] = true
consistent (s ∷ ss) = not (any (clashes s) ss) && consistent ss

abbrev pub queue_names : List QueueRef → List Bytes
queue_names [] = []
queue_names (r ∷ rs) = r.name ∷ queue_names rs

abbrev sample : Desc → ℕ → Bytes → Sample
sample d v q = record { desc = d; value = v; queue = q }

collect-clashes :
    (d : Desc) (v : ℕ) (q : Bytes) (queues : List QueueRef)
    → any (clashes (sample d v q)) (collect queues) ≡ taken (queue_names queues) q
unfolding collect
collect-clashes d v q [] = refl
collect-clashes depth_desc v q (r ∷ queues) = ap (◌||◌ _) (collect-clashes depth_desc v q queues)
collect-clashes cap_desc v q (r ∷ queues) = ap (◌||◌ _) (collect-clashes cap_desc v q queues)

-- A scrape is refused exactly when two queues have one name.
pub collect-distinct :
    (queues : List QueueRef) → consistent (collect queues) ≡ distinct (queue_names queues)
unfolding collect
collect-distinct [] = refl
collect-distinct (r ∷ queues) = ground (
  arith,
  collect-distinct queues,
  collect-clashes depth_desc r.depth r.name queues,
  collect-clashes cap_desc r.capacity r.name queues,
)
