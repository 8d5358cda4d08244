-- ===== src/Session/Latency/Order.antt =====
-- The order of the latency statistics.
use serial_testkit.Prelude.{
  ℕ, zero, suc, ◌-◌, ◌*◌, ◌/◌, ◌≤◌, ◌<◌, ◌≡◌, refl, sym, ◌∙◌, true, some, List, [], ◌∷◌, length,
  All, arith,
}
use serial_testkit.Exec.{ok}
use serial_testkit.Session.Latency.{LatencyStats, index, last, percentile, compute_latency_stats}
use serial_testkit.Session.Latency.Sorting.{
  sorted, has, All-le, IsSorted, length-sorted, has-sorted, sorted-IsSorted, All-sorted_inv, sum,
}

index-total : (xs : List ℕ) (i : ℕ) → i < length xs → (a : ℕ) × (index xs i ≡ ok a)
unfolding index
index-total [] i h = absurd (omega arith)
index-total (x ∷ xs) zero h = (x, refl)
index-total (x ∷ xs) (suc i) h = index-total xs i (omega arith)

last-index : (xs : List ℕ) (n : ℕ) → length xs ≡ suc n → last xs ≡ index xs n
unfolding last index
last-index [] n h = absurd (omega arith)
last-index (x ∷ []) zero h = refl
last-index (x ∷ []) (suc n) h = absurd (omega arith)
last-index (x ∷ y ∷ ys) zero h = absurd (omega arith)
last-index (x ∷ y ∷ ys) (suc n) h = last-index (y ∷ ys) n (omega arith)

index_zero-All : (xs : List ℕ) (a : ℕ) → IsSorted xs → index xs 0 ≡ ok a → All (λ y. a ≤ y) xs
unfolding index
index_zero-All [] a s e = tt
index_zero-All (x ∷ xs) a (s, ss) e = let k : a ≤ x = ground arith in (k, All-le a x xs k s)

last-All : (xs : List ℕ) (b : ℕ) → IsSorted xs → last xs ≡ ok b → All (λ y. y ≤ b) xs
unfolding last
last-All [] b s e = tt
last-All (x ∷ []) b s e = (ground arith, tt)
last-All (x ∷ y ∷ ys) b ((le, _), ss) e =
    let (k, ks) = last-All (y ∷ ys) b ss e in (omega arith, (k, ks))

index-has : (xs : List ℕ) (i a : ℕ) → index xs i ≡ ok a → has a xs ≡ true
unfolding index has
index-has [] i a e = absurd (cc)
index-has (x ∷ xs) zero a e = ground arith
index-has (x ∷ xs) (suc i) a e = ground (arith, index-has xs i a e)

index-All : (P : ℕ → Type 0) (xs : List ℕ) (i a : ℕ) → All P xs → index xs i ≡ ok a → P a
unfolding index
index-All P [] i a h e = absurd (cc)
index-All P (x ∷ xs) zero a (h, hs) e = ground arith
index-All P (x ∷ xs) (suc i) a (h, hs) e = index-All P xs i a hs e

index-le :
    (xs : List ℕ) (i j a b : ℕ)
    → IsSorted xs
    → i ≤ j
    → index xs i ≡ ok a
    → index xs j ≡ ok b
    → a ≤ b
unfolding index
index-le [] i j a b s h e f = absurd (cc)
index-le (x ∷ xs) zero zero a b s h e f = ground arith
index-le (x ∷ xs) zero (suc j) a b (s, ss) h e f =
    let k : x ≤ b = index-All (λ y. x ≤ y) xs j b s f in ground arith
index-le (x ∷ xs) (suc i) zero a b s h e f = absurd (omega arith)
index-le (x ∷ xs) (suc i) (suc j) a b (s, ss) h e f = index-le xs i j a b ss (omega arith) e f

-- The statistics of some samples: they are counted, the least and the greatest bound all samples,
-- the percentiles stand between these in order, and all five are samples.
pub record IsSummary (samples : List ℕ) (st : LatencyStats) : Type 0 where
  pub counted : st.count ≡ length samples
  pub least : All (λ y. st.min_ns ≤ y) samples
  pub greatest : All (λ y. y ≤ st.max_ns) samples
  pub ordered :
      (st.min_ns ≤ st.p50_ns)
      × (st.p50_ns ≤ st.p95_ns)
      × (st.p95_ns ≤ st.p99_ns)
      × (st.p99_ns ≤ st.max_ns)
  pub measured :
      All
        (λ v. has v samples ≡ true)
        (st.min_ns ∷ st.p50_ns ∷ st.p95_ns ∷ st.p99_ns ∷ st.max_ns ∷ [])

-- On at least one sample `compute_latency_stats` returns statistics, without an IndexError, and
-- they summarise the samples: the count is theirs, min and max are the least and the greatest of
-- them, min ≤ p50 ≤ p95 ≤ p99 ≤ max, and the percentiles are samples too.
pub compute_latency_stats-IsSummary :
    (s : ℕ) (ss : List ℕ)
    → (st : LatencyStats) × (compute_latency_stats (s ∷ ss) ≡ ok (some st)) × IsSummary (s ∷ ss) st
unfolding compute_latency_stats percentile
compute_latency_stats-IsSummary s ss =
    let xs = sorted (s ∷ ss) in
    let n = length ss in
    let is = sorted-IsSorted (s ∷ ss) in
    let len : length xs ≡ suc n = length-sorted (s ∷ ss) in
    let (a, ea) = index-total xs 0 (omega arith) in
    let (p, ep) = index-total xs (50 * (length xs - 1) / 100) (omega arith) in
    let (q, eq) = index-total xs (95 * (length xs - 1) / 100) (omega arith) in
    let (r, er) = index-total xs (99 * (length xs - 1) / 100) (omega arith) in
    let (b, eb) = index-total xs n (omega arith) in
    let el : last xs ≡ ok b = last-index xs n len ∙ eb in
    let member : (i v : ℕ) → index xs i ≡ ok v → has v (s ∷ ss) ≡ true =
      λ i v e. sym (has-sorted v (s ∷ ss)) ∙ index-has xs i v e in
    let st : LatencyStats = record {
      count = suc n;
      min_ns = a;
      max_ns = b;
      avg_ns = record { num = sum xs; den = suc n };
      p50_ns = p;
      p95_ns = q;
      p99_ns = r;
    } in
    (
      st,
      rw (ea, el, ep, eq, er),
      record {
        counted = refl;
        least = All-sorted_inv _ (s ∷ ss) (index_zero-All xs a is ea);
        greatest = All-sorted_inv _ (s ∷ ss) (last-All xs b is el);
        ordered = (
          index-le xs _ _ a p is (omega arith) ea ep,
          index-le xs _ _ p q is (omega arith) ep eq,
          index-le xs _ _ q r is (omega arith) eq er,
          index-le xs _ _ r b is (omega arith) er eb,
        );
        measured =
            (member _ a ea, (member _ p ep, (member _ q eq, (member _ r er, (member _ b eb, tt)))));
      },
    )
