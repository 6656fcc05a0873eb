-- ===== src/Index/Metrics/Window.antt =====
-- The window of latencies after any number of foreground operations.
use opcda_bridge.Base.{
  ℕ, zero, suc, ◌-◌, ◌≤◌, ◌<◌, ◌≡◌, refl, ltb→lt, ap, sym, ◌∙◌, some, List, [], ◌∷◌, ◌++◌, arith,
  ltb, length, length-append, drop, map, Bool-cases, inl, inr,
}
use mathlib.Core.List.{append-nil, append_assoc}
use opcda_bridge.Index.Metrics.{
  ForegroundMetricState, Operation, window, push_latency, record_health_at, sort, percentile,
  snapshot,
}
use opcda_bridge.Index.Metrics.Percentile.{IsRank, percentile-IsRank}

-- The state that one operation after the other leaves.
unfoldable pub record_all : List Operation → ForegroundMetricState → ForegroundMetricState
record_all [] s = s
record_all (o ∷ operations) s = record_all operations (record_health_at o s)

abbrev pub latency_of : Operation → ℕ
latency_of o = o.latency_ms

-- The last values of a list, as many as the window holds.
abbrev pub last_of : List ℕ → List ℕ
last_of xs = drop (length xs - window) xs

drop-append : (n : ℕ) (xs ys : List ℕ) → n ≤ length xs → drop n (xs ++ ys) ≡ drop n xs ++ ys
drop-append zero xs ys h = refl
drop-append (suc n) [] ys h = absurd (omega arith)
drop-append (suc n) (x ∷ xs) ys h = drop-append n xs ys (omega arith)

drop-drop : (n : ℕ) (xs : List ℕ) → drop 1 (drop n xs) ≡ drop (suc n) xs
drop-drop zero [] = refl
drop-drop zero (x ∷ xs) = refl
drop-drop (suc n) [] = refl
drop-drop (suc n) (x ∷ xs) = drop-drop n xs

length-drop : (n : ℕ) (xs : List ℕ) → length (drop n xs) ≡ length xs - n
length-drop zero xs = omega arith
length-drop (suc n) [] = omega arith
length-drop (suc n) (x ∷ xs) = omega (arith, length-drop n xs)

push_latency-last_of : (v : ℕ) (xs : List ℕ) → push_latency v (last_of xs) ≡ last_of (xs ++ v ∷ [])
unfolding push_latency
push_latency-last_of v xs =
    let n : ℕ = length xs - window in
    let whole : last_of xs ++ v ∷ [] ≡ drop n (xs ++ v ∷ []) =
      sym (drop-append n xs (v ∷ []) (omega arith)) in
    let size = length-append xs (v ∷ []) in
    let kept = length-drop n (xs ++ v ∷ []) in
    rw whole (elim (Bool-cases (ltb window (length (drop n (xs ++ v ∷ []))))) [
      | inl full ↦ rw full (
          drop-drop n (xs ++ v ∷ [])
          ∙ ap (λ k. drop k (xs ++ v ∷ []))
              (let e : suc n ≡ length (xs ++ v ∷ []) - window =
                  omega (arith, size, kept, ltb→lt window _ full) in
                e))
      | inr fits ↦ rw fits (
          ap (λ k. drop k (xs ++ v ∷ []))
            (let e : n ≡ length (xs ++ v ∷ []) - window = ground (arith, size, kept, fits) in e))
    ])

latencies-record_all :
    (operations : List Operation) (s : ForegroundMetricState) (xs : List ℕ)
    → s.latencies_ms ≡ last_of xs
    → (record_all operations s).latencies_ms ≡ last_of (xs ++ map latency_of operations)
unfolding record_all record_health_at
latencies-record_all [] s xs e = rw (append-nil xs) e
latencies-record_all (o ∷ operations) s xs e =
    let one : push_latency o.latency_ms s.latencies_ms ≡ last_of (xs ++ o.latency_ms ∷ []) =
      ap (push_latency o.latency_ms) e ∙ push_latency-last_of o.latency_ms xs in
    latencies-record_all operations (record_health_at o s) (xs ++ o.latency_ms ∷ []) one
    ∙ ap last_of (append_assoc xs (o.latency_ms ∷ []) (map latency_of operations))

-- The first operation and any number of others are recorded in a state that has recorded nothing.
-- The window holds the latencies of the last 128 of them, and the percentiles of the snapshot are
-- the least latencies that 50, and 95, of 100 in the window do not pass.
pub snapshot-window :
    (active_count : ℕ) (first : Operation) (operations : List Operation) (s : ForegroundMetricState)
    → s.latencies_ms ≡ []
    → let recorded = record_all (first ∷ operations) s in
      let last = last_of (map latency_of (first ∷ operations)) in
      (a : ℕ) × (b : ℕ) × (recorded.latencies_ms ≡ last)
      × ((snapshot active_count recorded).latency_p50_ms ≡ some a)
      × ((snapshot active_count recorded).latency_p95_ms ≡ some b)
      × IsRank 50 a last
      × IsRank 95 b last
unfolding snapshot
snapshot-window active_count first operations s e =
    let last : List ℕ = last_of (map latency_of (first ∷ operations)) in
    let held = latencies-record_all (first ∷ operations) s [] e in
    let filled : 0 < length last = omega (
      arith,
      length-drop (length (map latency_of (first ∷ operations)) - window)
          (map latency_of (first ∷ operations)),
    ) in
    let (a, p, ra) = percentile-IsRank last 50 filled (omega arith) (omega arith) in
    let (b, q, rb) = percentile-IsRank last 95 filled (omega arith) (omega arith) in
    (
      a,
      b,
      held,
      ap (λ w. percentile (sort w) 50) held ∙ p,
      ap (λ w. percentile (sort w) 95) held ∙ q,
      ra,
      rb,
    )
