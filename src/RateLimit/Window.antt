-- ===== src/RateLimit/Window.antt =====
-- The limiter against its history: how many hits of a key one window has seen.
use ai_kubernetes_troublesho.Prelude.{
  ℕ, ◌+◌, ◌≤◌, ◌≡◌, refl, ◌∙◌, String, List, [], ◌∷◌, arith, ltb, leb, ◌==◌, string_eq, nat_eq,
  eq_iff, keep, if◌then◌else◌,
}
use ai_kubernetes_troublesho.Prelude.Dict.{Dict, get, get-put}
use ai_kubernetes_troublesho.RateLimit.{
  Bucket, bucket_eq, bucket_test_iff, Limiter, window_of, purge, count_or_zero, hit,
}

-- a hit of `key` with `limit` at the time `now`
pub record Hit : Type 0 where
  pub key : String
  pub limit : ℕ
  pub now : ℕ

-- The limiter after a history of hits.
unfoldable pub replay : List Hit → Limiter → Limiter
replay [] limiter = limiter
replay (h ∷ hits) limiter = replay hits (hit h.key h.limit h.now limiter).2

-- How many hits of the bucket the history holds.
abbrev pub hits_of : ℕ → Bucket → List Hit → ℕ
hits_of size bucket [] = 0
hits_of size bucket (h ∷ hits) =
    (if (h.key, window_of size h.now) == bucket then 1 else 0) + hits_of size bucket hits

-- No hit of the history lies in a later window.
abbrev pub NoneLater : ℕ → ℕ → List Hit → Type 0
NoneLater size window [] = Unit
NoneLater size window (h ∷ hits) = (window_of size h.now ≤ window) × NoneLater size window hits

-- Dropping old windows keeps the counts of the window at hand and of later ones.
get-keep :
    (window : ℕ) (bucket : Bucket) (counts : Dict Bucket ℕ)
    → window ≤ bucket.1
    → get bucket (keep (λ entry. leb window entry.0.1) counts) ≡ get bucket counts
unfolding get
get-keep window bucket [] h = refl
get-keep window (key, n) (((key', n'), count) ∷ counts) h =
    ground (arith, eq_iff key' key, get-keep window (key, n) counts h)

get-purge :
    (window : ℕ) (bucket : Bucket) (counts : Dict Bucket ℕ)
    → window ≤ bucket.1
    → get bucket (purge window counts) ≡ get bucket counts
unfolding purge
get-purge window bucket counts h = ground (arith, get-keep window bucket counts h)

abbrev pub count_of : Bucket → Limiter → ℕ
count_of bucket limiter = count_or_zero (get bucket limiter.counts)

size-hit :
    (key : String) (limit now : ℕ) (limiter : Limiter)
    → (hit key limit now limiter).2.window_seconds ≡ limiter.window_seconds
unfolding hit
size-hit key limit now limiter = refl

count_of-hit :
    (key : String) (limit now : ℕ) (bucket : Bucket) (limiter : Limiter)
    → window_of limiter.window_seconds now ≤ bucket.1
    → count_of bucket (hit key limit now limiter).2
      ≡ (if (key, window_of limiter.window_seconds now) == bucket then 1 else 0)
        + count_of bucket limiter
unfolding hit
count_of-hit key limit now bucket limiter h =
    let window = window_of limiter.window_seconds now in
    let own : Bucket = (key, window) in
    let used = count_or_zero (get own (purge window limiter.counts)) + 1 in
    ground (
      arith,
      get-put own bucket used (purge window limiter.counts),
      get-purge window bucket limiter.counts h,
      bucket_test_iff own bucket,
    )

module _ (size : ℕ) (bucket : Bucket) where
  count_of-replay :
      (hits : List Hit) (limiter : Limiter)
      → limiter.window_seconds ≡ size
      → NoneLater size bucket.1 hits
      → count_of bucket (replay hits limiter) ≡ hits_of size bucket hits + count_of bucket limiter
  unfolding replay
  count_of-replay [] limiter e h = omega arith
  count_of-replay (x ∷ hits) limiter e h = ground (
    arith,
    size-hit x.key x.limit x.now limiter,
    count_of-hit x.key x.limit x.now bucket limiter,
    count_of-replay hits (hit x.key x.limit x.now limiter).2,
  )

  size-replay :
      (hits : List Hit) (limiter : Limiter)
      → limiter.window_seconds ≡ size
      → (replay hits limiter).window_seconds ≡ size
  unfolding replay
  size-replay [] limiter e = e
  size-replay (x ∷ hits) limiter e =
      size-replay hits (hit x.key x.limit x.now limiter).2
        (size-hit x.key x.limit x.now limiter ∙ e)

abbrev pub fresh : ℕ → Limiter
fresh size = record { window_seconds = size; counts = [] }

-- A hit is allowed exactly when fewer hits of its key than the limit came before it in its window,
-- however many other callers there were and whether or not old windows were dropped meanwhile. The
-- history is any list of hits, none of them in a later window.
pub hit_exact :
    (size : ℕ) (history : List Hit) (key : String) (limit now : ℕ)
    → NoneLater size (window_of size now) history
    → (hit key limit now (replay history (fresh size))).0
      ≡ ltb (hits_of size (key, window_of size now) history) limit
unfolding hit get
hit_exact size history key limit now h =
    let bucket : Bucket = (key, window_of size now) in
    ground (
      arith,
      size-replay size bucket history (fresh size) refl,
      count_of-replay size bucket history (fresh size) refl h,
      get-purge (window_of size now) bucket (replay history (fresh size)).counts (omega arith),
    )
