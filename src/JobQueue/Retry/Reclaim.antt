-- ===== src/JobQueue/Retry/Reclaim.antt =====
-- The loop of `_reclaim_stale` in job_queue/retry.py ends.
use fleet_llm_inference.Common.{
  ℕ, zero, suc, ◌<◌, String, ◌≡◌, ◌≢◌, false, none, List, [], ◌∷◌, arith, ap, ◌==◌, keep, is_some,
  length, length-append, length-keep-le,
}
use fleet_llm_inference.Common.Raises.{ok}
use fleet_llm_inference.Redis.{Json}
use fleet_llm_inference.Redis.Streams.{Streams, IsStreams, Entry}
use fleet_llm_inference.JobQueue.Stream.{Queue}
use fleet_llm_inference.JobQueue.Retry.{reclaim_stale, is_nil}

module _ {V : Type 0} (R : Streams) (json : Json V) (q : Queue) (L : IsStreams R) where
  not_nil {ℓ} : {A : Type ℓ} (xs : List A) → is_nil xs ≡ false → 0 < length xs
  not_nil [] h = cc
  not_nil (x ∷ xs) h = omega arith

  -- The entries of the queue that are pending in its group.
  abbrev pub pending : R.State → List Entry
  pending s =
      keep (λ e. is_some (R.delivered s q.stream_key q.group_name e.0)) (L.entries s q.stream_key)

  -- A page that gives entries leaves fewer to scan.
  fewer_left :
      (s : R.State) (min_idle_ms : ℕ) (cursor : String)
      → let (s', next, found) =
          R.xautoclaim s q.stream_key q.group_name q.consumer_name min_idle_ms cursor 50 in
        (next == "0-0") ≡ false
        → is_nil found ≡ false
        → length (L.unscanned s' q.stream_key q.group_name next)
          < length (L.unscanned s q.stream_key q.group_name cursor)
  fewer_left s min_idle_ms cursor going given =
      let (scanned, left, claims, parts, found, _, rest) =
        L.xautoclaim_lem s q.stream_key q.group_name q.consumer_name min_idle_ms cursor 50 in
      omega (
        arith,
        ap length parts,
        length-append scanned left,
        ap length (rest going),
        not_nil _ given,
        ap length found,
        length-keep-le claims scanned,
      )

  reclaim_stale_ends :
      (fuel min_idle_ms : ℕ) (cursor : String) (s : R.State)
      → length (L.unscanned s q.stream_key q.group_name cursor) < fuel
      → (reclaim_stale R json q fuel min_idle_ms cursor s).1 ≢ ok none
  unfolding reclaim_stale
  reclaim_stale_ends zero min_idle_ms cursor s h = absurd (omega arith)
  reclaim_stale_ends (suc fuel) min_idle_ms cursor s h =
      let claimed =
        R.xautoclaim s q.stream_key q.group_name q.consumer_name min_idle_ms cursor 50 in
      let go = reclaim_stale_ends fuel min_idle_ms claimed.1 claimed.0 in
      let closer = fewer_left s min_idle_ms cursor in λ e. ground (arith, go, closer)

  -- With more fuel than the queue has entries pending in its group, the loop that reclaims stale
  -- entries, page by page, does not run out of it.
  pub reclaim_stale_total :
      (fuel min_idle_ms : ℕ) (s : R.State)
      → length (pending s) < fuel
      → (reclaim_stale R json q fuel min_idle_ms "0-0" s).1 ≢ ok none
  reclaim_stale_total fuel min_idle_ms s h =
      reclaim_stale_ends fuel min_idle_ms "0-0" s
        (omega (arith, h, ap length (L.unscanned_start s q.stream_key q.group_name)))
