-- ===== src/Task/UpdateKlines/Ends.antt =====
-- The download loops end.
use Prim.Native.Nat.{ℕ, zero, suc, ◌+◌, ◌-◌, ◌*◌, ◌≤◌}
use chainer_trader.Prelude.{
  ◌≡◌, refl, Bool, true, false, ◌||◌, Option, none, some, List, [], ◌∷◌, String, is_some, ltb, leb,
  Returns, Returns-ok, arith,
}
use chainer_trader.Prelude.Exec.{Exec, Returns-then, Returns-after, Returns-choice, Returns-branch}
use chainer_trader.Common.Interval.{Interval, get_time_duration, add_time_duration}
use chainer_trader.Task.Dataset.{Kline}
use chainer_trader.Task.UpdateKlines.{
  Source, LoopEnd, out_of_fuel, gave_up, ended, Forward, Backward, download_retry_max,
  last_open_time, one_before, advanced, retried, received, forward_turn, forward_loop,
  forward_result, download_range, moved_back, retried_back, received_back, ask_back, backward_turn,
  backward_loop, backward_result, download_range_backward, compute_limit_for_range, cached_if,
  earliest_if, earlier,
}

abbrev is_over : {A : Type 0} → LoopEnd A → Bool
is_over out_of_fuel = false
is_over gave_up = true
is_over (ended a) = true

abbrev IsOver : {A : Type 0} → LoopEnd A → Type 0
IsOver e = is_over e ≡ true

-- The fuel that a loop needs, by what is left of the range and the retries that were made: each time
-- of the range has a first try and five retries.
abbrev needs : ℕ → ℕ → ℕ
needs left retries = left * 6 + (6 - retries)

-- enough fuel for a range
abbrev pub enough : ℕ → ℕ → ℕ
enough start end = (end - start + 2) * 6

module _ {W : Type 0} (src : Source W) (interval : Interval) (start end : ℕ) where
  abbrev Fuelled : ℕ → Forward → Type 0
  Fuelled fuel s = (s.retry_count ≤ 5) × (needs (end + 1 - s.current_start) s.retry_count ≤ fuel)

  -- what the rest of the loop does on a smaller fuel
  abbrev Ends : ℕ → (Forward → Exec String W (LoopEnd ℕ)) → Type 0
  Ends fuel again = (s : Forward) (w : W) → Fuelled fuel s → Returns IsOver (again s w).0

  retried-IsOver :
      (fuel : ℕ) (again : Forward → Exec String W (LoopEnd ℕ)) (s : Forward) (w : W)
      → Ends fuel again
      → s.current_start ≤ end
      → Fuelled (suc fuel) s
      → Returns IsOver (retried src interval start end again s w).0
  retried-IsOver fuel again s w ends p h =
      Returns-choice (ltb s.retry_count download_retry_max) _ _ w
        (λ e. ends (record s { retry_count = s.retry_count + 1 }) w (ground arith, ground arith))
        (λ e. Returns-ok _ refl)

  advanced-IsOver :
      (fuel : ℕ) (again : Forward → Exec String W (LoopEnd ℕ)) (s : Forward) (last added : ℕ)
      (w : W)
      → Ends fuel again
      → s.current_start ≤ end
      → Fuelled (suc fuel) s
      → Returns IsOver (advanced src interval start end again s last added w).0
  advanced-IsOver fuel again s last added w ends p h =
      let next_start = add_time_duration last interval 1 in
      Returns-choice (leb next_start s.current_start) _ _ w (λ e. Returns-ok _ refl)
        (λ e.
          ends
            (record {
              current_start = next_start;
              retry_count = 0;
              total_records = s.total_records + added;
            })
            w (ground arith, ground arith))

  received-IsOver :
      (fuel : ℕ) (again : Forward → Exec String W (LoopEnd ℕ)) (s : Forward)
      (a : Option (List Kline)) (w : W)
      → Ends fuel again
      → s.current_start ≤ end
      → Fuelled (suc fuel) s
      → Returns IsOver (received src interval start end again s a w).0
  received-IsOver fuel again s none w ends p h = retried-IsOver fuel again s w ends p h
  received-IsOver fuel again s (some []) w ends p h = retried-IsOver fuel again s w ends p h
  received-IsOver fuel again s (some (k ∷ ks)) w ends p h =
      Returns-then (src.add_klines (k ∷ ks)) _ w
        λ added w1. advanced-IsOver fuel again s (last_open_time k ks) added w1 ends p h

  forward_loop-IsOver :
      (fuel : ℕ) (s : Forward) (w : W)
      → Fuelled fuel s
      → Returns IsOver (forward_loop src interval start end fuel s w).0
  unfolding forward_loop forward_turn
  forward_loop-IsOver zero s w h = ground arith
  forward_loop-IsOver (suc fuel) s w h =
      Returns-branch (ltb end s.current_start) _ _ (λ e. Returns-ok _ refl)
        λ e.
          Returns-branch (src.is_quit w) _ _ (λ q. Returns-ok _ refl)
            λ q. Returns-then (src.get_klines s.current_start _ _) _ w λ a w1.
              received-IsOver fuel (forward_loop src interval start end fuel) s a w1
                (λ s2 w2 h2. forward_loop-IsOver fuel s2 w2 h2) (ground arith) h

  -- the answer of a download that is over
  abbrev IsAnswered : Option Bool → Type 0
  IsAnswered o = is_some o ≡ true

  forward_result-IsAnswered :
      (e : LoopEnd ℕ) (w : W)
      → IsOver e
      → Returns IsAnswered (forward_result src interval start end e w).0
  forward_result-IsAnswered out_of_fuel w h = ground arith
  forward_result-IsAnswered gave_up w h = Returns-ok _ refl
  forward_result-IsAnswered (ended total) w h =
      Returns-then (cached_if src interval start end total "download_range") _ w
        λ u w1. Returns-ok _ refl

  -- what is left of the range at or before the current end
  abbrev FuelledBack : ℕ → Backward → Type 0
  FuelledBack fuel s = (s.retries ≤ 5) × (needs (s.current_end + 1 - start) s.retries ≤ fuel)

  abbrev EndsBack : ℕ → (Backward → Exec String W (LoopEnd Backward)) → Type 0
  EndsBack fuel again = (s : Backward) (w : W) → FuelledBack fuel s → Returns IsOver (again s w).0

  moved_back-IsOver :
      (fuel : ℕ) (again : Backward → Exec String W (LoopEnd Backward)) (s : Backward) (o : Option ℕ)
      (w : W)
      → EndsBack fuel again
      → start ≤ s.current_end
      → s.retries ≡ 0
      → needs (s.current_end + 1 - start) 5 ≤ suc fuel
      → Returns IsOver (moved_back src interval start end again s o w).0
  moved_back-IsOver fuel again s none w ends p z h = Returns-ok _ refl
  moved_back-IsOver fuel again s (some prev_end) w ends p z h =
      Returns-choice (leb s.current_end prev_end || ltb prev_end start) _ _ w
        (λ e. Returns-ok _ refl)
        (λ e. ends (record s { current_end = prev_end }) w (ground arith, ground arith))

  retried_back-IsOver :
      (fuel : ℕ) (again : Backward → Exec String W (LoopEnd Backward)) (s : Backward) (w : W)
      → EndsBack fuel again
      → FuelledBack (suc fuel) s
      → Returns IsOver (retried_back src interval start end again s w).0
  retried_back-IsOver fuel again s w ends h =
      Returns-choice (ltb s.retries download_retry_max) _ _ w
        (λ e. ends (record s { retries = s.retries + 1 }) w (ground arith, ground arith))
        (λ e. Returns-ok _ refl)

  received_back-IsOver :
      (fuel : ℕ) (again : Backward → Exec String W (LoopEnd Backward)) (s : Backward)
      (a : Option (List Kline)) (w : W)
      → EndsBack fuel again
      → start ≤ s.current_end
      → FuelledBack (suc fuel) s
      → Returns IsOver (received_back src interval start end again s a w).0
  received_back-IsOver fuel again s none w ends p h = retried_back-IsOver fuel again s w ends h
  received_back-IsOver fuel again s (some []) w ends p h = Returns-ok _ refl
  received_back-IsOver fuel again s (some (k ∷ ks)) w ends p h =
      Returns-then (src.add_klines (k ∷ ks)) _ w λ added w1.
        moved_back-IsOver fuel again
          (record s {
            retries = 0;
            total = s.total + added;
            earliest_seen_open_time = earlier s.earliest_seen_open_time k.open_time;
          })
          (one_before (get_time_duration interval) k.open_time) w1 ends p refl (ground arith)

  backward_loop-IsOver :
      (fuel : ℕ) (s : Backward) (w : W)
      → FuelledBack fuel s
      → Returns IsOver (backward_loop src interval start end fuel s w).0
  unfolding backward_loop backward_turn
  backward_loop-IsOver zero s w h = ground arith
  backward_loop-IsOver (suc fuel) s w h =
      Returns-branch (ltb s.current_end start) _ _ (λ e. Returns-ok _ refl)
        λ e.
          Returns-branch (src.is_quit w) _ _ (λ q. Returns-ok _ refl)
            λ q.
              Returns-branch
                (leb (compute_limit_for_range src.limit_max interval start s.current_end) 0) _ _
                (λ l. Returns-ok _ refl)
                λ l.
                  Returns-then
                    (ask_back src interval start end src.get_klines_by_end s.current_end _) _ w
                    λ a w1.
                      received_back-IsOver fuel (backward_loop src interval start end fuel) s a w1
                        (λ s2 w2 h2. backward_loop-IsOver fuel s2 w2 h2) (ground arith) h

  backward_result-IsAnswered :
      (e : LoopEnd Backward) (w : W)
      → IsOver e
      → Returns IsAnswered (backward_result src interval start end e w).0
  backward_result-IsAnswered out_of_fuel w h = ground arith
  backward_result-IsAnswered gave_up w h = Returns-ok _ refl
  backward_result-IsAnswered (ended s) w h =
      Returns-then
        (earliest_if src interval start end s.confirmed_boundary s.earliest_seen_open_time) _ w
        λ u w1.
          Returns-then (cached_if src interval start end s.total "download_range_backward") _ w1
            λ v w2. Returns-ok _ refl

  -- Whatever the exchange and the database answer, both downloads come to an end: with fuel for six
  -- turns for each second of the range and of the two after it, unless a call raises, they answer.
  pub downloads_end :
      (fuel : ℕ) (w : W)
      → enough start end ≤ fuel
      → Returns (λ o. is_some o ≡ true) (download_range src interval start end fuel w).0
        × Returns (λ o. is_some o ≡ true) (download_range_backward src interval start end fuel w).0
  unfolding download_range download_range_backward
  downloads_end fuel w h = (
    Returns-choice (ltb end start) _ _ w (λ e. Returns-ok _ refl)
        λ e.
          Returns-after (forward_loop src interval start end fuel _) _ w
            (forward_loop-IsOver fuel _ w (ground arith, ground arith))
            (λ a w1 o. forward_result-IsAnswered a w1 o),
    Returns-choice (ltb end start) _ _ w (λ e. Returns-ok _ refl)
        λ e.
          Returns-after (backward_loop src interval start end fuel _) _ w
            (backward_loop-IsOver fuel _ w (ground arith, ground arith))
            (λ a w1 o. backward_result-IsAnswered a w1 o),
  )
