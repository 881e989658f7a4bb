-- ===== src/Net/SlidingWindow/Laws.antt =====
-- The limiter of phira-mp-plus-server/src/rate_limiter.rs keeps what it promises.
use phira_mp_plus.Common.{
  ℕ, ◌≤◌, ◌≡◌, refl, List, [], ◌∷◌, ◌++◌, Bool, true, false, ◌||◌, length, leb, inl, inr,
  if◌then◌else◌, retain, arith, Bool-cases, ap, append-nil,
}
use phira_mp_plus.Wire.Text.{Text, beq_text, beq_text_iff}
use phira_mp_plus.Net.SlidingWindow.{
  SlidingWindow, Call, request, tidy, fresh, new, window, stamps, put, check, unless_empty, sweep,
  cleanup, answers,
}
use phira_mp_plus.Net.SlidingWindow.History.{
  times_of, allows, expected, IsOrdered, admitted, in_window, retain-append, times_of-append,
  expected-IsLimited,
}

-- What is stale stays stale.
retain-fresh :
    (width now t : ℕ) (xs : List ℕ)
    → now ≤ t
    → retain (fresh width t) (retain (fresh width now) xs) ≡ retain (fresh width t) xs
retain-fresh width now t [] h = refl
retain-fresh width now t (x ∷ xs) h = ground (arith, retain-fresh width now t xs h)

stamps-put :
    (j key : Text) (ts : List ℕ) (m : List (Text × List ℕ))
    → stamps j (put key ts m) ≡ (if beq_text key j then ts else stamps j m)
unfolding stamps put
stamps-put j key ts [] = refl
stamps-put j key ts ((k, old) ∷ m) =
    ground (arith, beq_text_iff k key, beq_text_iff k j, beq_text_iff key j, stamps-put j key ts m)

has_bucket : Text → List (Text × List ℕ) → Bool
has_bucket j [] = false
has_bucket j ((k, ts) ∷ m) = beq_text k j || has_bucket j m

-- A `HashMap` has a key once.
IsMap : List (Text × List ℕ) → Type 0
IsMap [] = Unit {0}
IsMap ((k, ts) ∷ m) = (has_bucket k m ≡ false) × IsMap m

stamps-absent : (j : Text) (m : List (Text × List ℕ)) → has_bucket j m ≡ false → stamps j m ≡ []
unfolding has_bucket stamps
stamps-absent j [] h = refl
stamps-absent j ((k, ts) ∷ m) h = ground (arith, stamps-absent j m)

has_bucket-put :
    (j key : Text) (ts : List ℕ) (m : List (Text × List ℕ))
    → has_bucket j (put key ts m) ≡ (beq_text key j || has_bucket j m)
unfolding has_bucket put
has_bucket-put j key ts [] = refl
has_bucket-put j key ts ((k, old) ∷ m) =
    ground (arith, beq_text_iff k key, has_bucket-put j key ts m)

put-IsMap : (key : Text) (ts : List ℕ) (m : List (Text × List ℕ)) → IsMap m → IsMap (put key ts m)
unfolding IsMap put has_bucket
put-IsMap key ts [] h = (refl, tt)
put-IsMap key ts ((k, old) ∷ m) h =
    ground
      (arith, beq_text_iff key k, beq_text_iff k key, has_bucket-put k key ts m, put-IsMap key ts m)

has_bucket-sweep :
    (width now : ℕ) (j : Text) (m : List (Text × List ℕ))
    → has_bucket j m ≡ false
    → has_bucket j (sweep width now m) ≡ false
unfolding has_bucket sweep
has_bucket-sweep width now j [] h = refl
has_bucket-sweep width now j ((k, ts) ∷ m) h =
    go (retain (fresh width now) ts) (has_bucket-sweep width now j m (ground arith))
  where
    go :
        (kept : List ℕ)
        → has_bucket j (sweep width now m) ≡ false
        → has_bucket j (unless_empty k kept (sweep width now m)) ≡ false
    go [] e = e
    go (s ∷ ss) e = ground arith

sweep-IsMap : (width now : ℕ) (m : List (Text × List ℕ)) → IsMap m → IsMap (sweep width now m)
unfolding IsMap sweep
sweep-IsMap width now [] h = tt
sweep-IsMap width now ((k, ts) ∷ m) h =
    go (retain (fresh width now) ts) (sweep-IsMap width now m h.1)
  where
    go :
        (kept : List ℕ)
        → IsMap (sweep width now m)
        → IsMap (unless_empty k kept (sweep width now m))
    go [] r = r
    go (s ∷ ss) r = (has_bucket-sweep width now k m h.0, r)

stamps-unless_empty :
    (j k : Text) (kept : List ℕ) (m : List (Text × List ℕ))
    → (beq_text k j ≡ true → stamps j m ≡ [])
    → stamps j (unless_empty k kept m) ≡ (if beq_text k j then kept else stamps j m)
unfolding stamps
stamps-unless_empty j k [] m h = ground arith
stamps-unless_empty j k (s ∷ ss) m h = refl

-- A cleanup takes from each bucket what a check would take from it.
stamps-sweep :
    (width now : ℕ) (j : Text) (m : List (Text × List ℕ))
    → IsMap m
    → stamps j (sweep width now m) ≡ retain (fresh width now) (stamps j m)
unfolding stamps sweep IsMap
stamps-sweep width now j [] h = refl
stamps-sweep width now j ((k, ts) ∷ m) h = ground (
  arith,
  beq_text_iff k j,
  stamps-unless_empty j k (retain (fresh width now) ts) (sweep width now m),
  stamps-absent j m,
  stamps-sweep width now j m h.1,
)

-- The buckets hold what the history does, as far as any later instant can see.
record Agrees (l : SlidingWindow) (clock : ℕ) (h : List (Text × ℕ)) : Type 0 where
  is_map : IsMap l.buckets
  same :
      (key : Text) (t : ℕ)
      → clock ≤ t
      → retain (fresh (window l.window_secs) t) (stamps key l.buckets)
        ≡ retain (fresh (window l.window_secs) t) (times_of key h)

cleanup-Agrees :
    (l : SlidingWindow) (clock now : ℕ) (h : List (Text × ℕ))
    → clock ≤ now
    → Agrees l clock h
    → Agrees (cleanup now l) now h
unfolding cleanup
cleanup-Agrees l clock now h later a = record {
  is_map = sweep-IsMap (window l.window_secs) now l.buckets a.is_map;
  same = λ key t late.
      rw
        (
          stamps-sweep (window l.window_secs) now key l.buckets a.is_map,
          retain-fresh (window l.window_secs) now t (stamps key l.buckets) late,
        )
        (a.same key t (omega arith));
}

-- A check answers as the history says, and the history grows by the request that it admits.
check-allows :
    (l : SlidingWindow) (clock now : ℕ) (key : Text) (h : List (Text × ℕ))
    → clock ≤ now
    → Agrees l clock h
    → (check now key l).0 ≡ allows l.max_count (window l.window_secs) h now key
unfolding check
check-allows l clock now key h later a = rw (← a.same key now later) (ground arith)

check-Agrees :
    (l : SlidingWindow) (clock now : ℕ) (key : Text) (h : List (Text × ℕ))
    → clock ≤ now
    → Agrees l clock h
    → Agrees (check now key l).1 now (if (check now key l).0 then h ++ (key, now) ∷ [] else h)
unfolding check times_of
check-Agrees l clock now key h later a =
    let width = window l.window_secs in
    let kept = retain (fresh width now) (stamps key l.buckets) in
    elim (Bool-cases (leb l.max_count (length kept))) [
      | inl full ↦ rw full (record {
        is_map = put-IsMap key kept l.buckets a.is_map;
        same = λ j t late. ground (
          arith,
          stamps-put j key kept l.buckets,
          beq_text_iff key j,
          retain-fresh width now t (stamps key l.buckets) late,
          a.same j t (omega arith),
        );
      })
      | inr room ↦ rw room (record {
        is_map = put-IsMap key (kept ++ now ∷ []) l.buckets a.is_map;
        same = λ j t late. ground (
          arith,
          stamps-put j key (kept ++ now ∷ []) l.buckets,
          beq_text_iff key j,
          retain-fresh width now t (stamps key l.buckets) late,
          a.same j t (omega arith),
          retain-append (fresh width t) kept (now ∷ []),
          times_of-append j h ((key, now) ∷ []),
          retain-append (fresh width t) (times_of j h) (times_of j ((key, now) ∷ [])),
          append-nil (retain (fresh width t) (times_of j h)),
        );
      })
    ]

keeps_size :
    (now : ℕ) (key : Text) (l : SlidingWindow)
    → ((check now key l).1.max_count ≡ l.max_count)
      × ((check now key l).1.window_secs ≡ l.window_secs)
unfolding check
keeps_size now key l = ground arith

answers-expected_from :
    (l : SlidingWindow) (clock : ℕ) (h : List (Text × ℕ)) (calls : List Call)
    → IsOrdered clock calls
    → Agrees l clock h
    → answers l calls ≡ expected l.max_count (window l.window_secs) h calls
unfolding answers expected cleanup
answers-expected_from l clock h [] o a = refl
answers-expected_from l clock h (tidy now ∷ calls) o a =
    answers-expected_from (cleanup now l) now h calls o.1 (cleanup-Agrees l clock now h o.0 a)
answers-expected_from l clock h (request now key ∷ calls) o a =
    let r =
      answers-expected_from (check now key l).1 now _ calls o.1
        (check-Agrees l clock now key h o.0 a) in
    rw (← check-allows l clock now key h o.0 a)
      (ap (◌∷◌ (check now key l).0) (rw ((keeps_size now key l).0, (keeps_size now key l).1) at r))

-- Of requests and cleanups in the order of time, each request is admitted exactly if fewer than
-- `max_count` requests of its key have been admitted in the window that ends with it: a cleanup
-- changes no answer.
pub answers-expected :
    (max_count window_secs clock : ℕ) (calls : List Call)
    → IsOrdered clock calls
    → answers (new max_count window_secs) calls ≡ expected max_count (window window_secs) [] calls
answers-expected max_count window_secs clock calls o =
    answers-expected_from (new max_count window_secs) clock [] calls o
      (record { is_map = unfold IsMap in tt; same = λ key t late. unfold stamps times_of in refl })

-- Of requests and cleanups in the order of time, no window of time has more than `max_count`
-- admitted requests of one key.
answers-are_limited :
    (max_count window_secs clock : ℕ) (calls : List Call) (key : Text) (t : ℕ)
    → IsOrdered clock calls
    → length (
        retain
          (in_window (window window_secs) t)
          (times_of key (admitted calls (answers (new max_count window_secs) calls))))
      ≤ max_count
answers-are_limited max_count window_secs clock calls key t o =
    rw (answers-expected max_count window_secs clock calls o)
      (expected-IsLimited max_count (window window_secs) calls key t)
