-- ===== src/Wire/Timers/Once.antt =====
-- The ids of class PollingCallback (packages/core/src/lib/basics.ts) over a history of its
-- timers.
use tern_scheduler.Prelude.{
  ℕ, zero, suc, ◌<◌, ◌≡◌, refl, arith, Bool, true, false, not, ◌&&◌, ◌==◌, if◌then◌else◌, Option,
  none, some, List, [], ◌∷◌, filter, Bool-cases, inl, inr,
}
use tern_scheduler.Errors.{Error}
use tern_scheduler.Cron.Next.Values.{listed}
use tern_scheduler.Cron.Expression.Sets.{IsDistinct, listed-append, append-IsDistinct}
use tern_scheduler.Wire.Timers.{
  PollingCallback, new_polling, register_poll_callback, stop, register_times, report, call_back,
  delete_callback, time_out, Step, registers, times_out, stops, listens, Reach, here, next,
}

abbrev pub without : ℕ → List ℕ → List ℕ
without id xs = filter (λ i. not (i == id)) xs

pub listed-without :
    (v id : ℕ) (xs : List ℕ) → listed v (without id xs) ≡ (not (v == id) && listed v xs)
listed-without v id [] = ground arith
listed-without v id (x ∷ xs) = elim (Bool-cases (x == id)) [
  | inl e ↦
      let same : x ≡ id = ground (arith, e) in rw same (ground (arith, listed-without v id xs))
  | inr e ↦ ground (arith, e, listed-without v id xs)
]

pub without-IsDistinct : (id : ℕ) (xs : List ℕ) → IsDistinct xs → IsDistinct (without id xs)
without-IsDistinct id [] d = tt
without-IsDistinct id (x ∷ xs) d = elim (Bool-cases (x == id)) [
  | inl e ↦ rw e (without-IsDistinct id xs d.1)
  | inr e ↦ rw e (ground (arith, listed-without x id xs, d.0), without-IsDistinct id xs d.1)
]

-- The ids in use are below the counter, each is kept once, each was called at most once, and one
-- that was called is kept no more, unless it is being called now.
pub record IsSound (called_now : List ℕ) (s : PollingCallback) : Type 0 where
  pub kept_below : (i : ℕ) → listed i s.running_callbacks ≡ true → i < s.count
  pub called_below : (i : ℕ) → listed i s.called ≡ true → i < s.count
  pub kept_once : IsDistinct s.running_callbacks
  pub called_once : IsDistinct s.called
  pub called_gone :
      (i : ℕ)
      → listed i s.called ≡ true
      → listed i called_now ≡ false
      → listed i s.running_callbacks ≡ false

not_listed : (n : ℕ) (xs : List ℕ) → ((i : ℕ) → listed i xs ≡ true → i < n) → listed n xs ≡ false
not_listed n xs h = elim (Bool-cases (listed n xs)) [
  | inl e ↦ absurd (omega (arith, h n e))
  | inr e ↦ e
]

either-IsSound :
    (called_now : List ℕ) (b : Bool) (s t : PollingCallback)
    → IsSound called_now s
    → IsSound called_now t
    → IsSound called_now (if b then s else t)
either-IsSound called_now true s t v w = v
either-IsSound called_now false s t v w = w

register-IsSound :
    (called_now : List ℕ) (s : PollingCallback)
    → IsSound called_now s
    → IsSound called_now (register_poll_callback s)
unfolding register_poll_callback
register-IsSound called_now s v =
    either-IsSound called_now s.is_active _ s
      (record {
        kept_below =
            λ i l. ground (arith, listed-append i s.running_callbacks s.count, l, v.kept_below i);
        called_below = λ i l. omega (arith, v.called_below i l);
        kept_once =
            append-IsDistinct s.running_callbacks s.count
              (not_listed s.count s.running_callbacks v.kept_below) v.kept_once;
        called_once = v.called_once;
        called_gone = λ i l n. ground (
          arith,
          listed-append i s.running_callbacks s.count,
          v.called_gone i l n,
          v.called_below i l,
        );
      })
      v

register_times-IsSound :
    (called_now : List ℕ) (n : ℕ) (s : PollingCallback)
    → IsSound called_now s
    → IsSound called_now (register_times n s)
unfolding register_times
register_times-IsSound called_now zero s v = v
register_times-IsSound called_now (suc n) s v =
    register_times-IsSound called_now n (register_poll_callback s) (register-IsSound called_now s v)

same-IsSound :
    (called_now : List ℕ) (s : PollingCallback) (active messaging : Bool) (errors : List Error)
    → IsSound called_now s
    → IsSound called_now
        (record s { is_active = active; has_messaging = messaging; reported = errors })
same-IsSound called_now s active messaging errors v = record {
  kept_below = v.kept_below;
  called_below = v.called_below;
  kept_once = v.kept_once;
  called_once = v.called_once;
  called_gone = v.called_gone;
}

report-IsSound :
    (called_now : List ℕ) (thrown : Option Error) (s : PollingCallback)
    → IsSound called_now s
    → IsSound called_now (report thrown s)
report-IsSound called_now none s v = v
report-IsSound called_now (some x) s v =
    either-IsSound called_now s.has_messaging _ s
      (same-IsSound called_now s s.is_active s.has_messaging (x ∷ s.reported) v) v

calling-IsSound :
    (id : ℕ) (s : PollingCallback)
    → listed id s.running_callbacks ≡ true
    → IsSound [] s
    → IsSound (id ∷ []) (record s { called = id ∷ s.called })
calling-IsSound id s l v = record {
  kept_below = v.kept_below;
  called_below = λ i k. ground (arith, k, l, v.called_below i, v.kept_below i);
  kept_once = v.kept_once;
  called_once = (called_not_yet, v.called_once);
  called_gone = λ i k n. ground (arith, k, n, v.called_gone i);
}
  where
    called_not_yet : listed id s.called ≡ false
    called_not_yet = elim (Bool-cases (listed id s.called)) [
      | inl e ↦ absurd (ground (arith, l, v.called_gone id e refl))
      | inr e ↦ e
    ]

delete-IsSound :
    (id : ℕ) (s : PollingCallback) → IsSound (id ∷ []) s → IsSound [] (delete_callback id s)
unfolding delete_callback
delete-IsSound id s v = record {
  kept_below = λ i l. ground (arith, l, listed-without i id s.running_callbacks, v.kept_below i);
  called_below = v.called_below;
  kept_once = without-IsDistinct id s.running_callbacks v.kept_once;
  called_once = v.called_once;
  called_gone = λ i l n. ground (arith, listed-without i id s.running_callbacks, v.called_gone i l);
}

weaker-IsSound : (id : ℕ) (s : PollingCallback) → IsSound [] s → IsSound (id ∷ []) s
weaker-IsSound id s v = record {
  kept_below = v.kept_below;
  called_below = v.called_below;
  kept_once = v.kept_once;
  called_once = v.called_once;
  called_gone = λ i l n. v.called_gone i l refl;
}

time_out-IsSound :
    (id calls : ℕ) (thrown : Option Error) (s : PollingCallback)
    → listed id s.running_callbacks ≡ true
    → IsSound [] s
    → IsSound [] (time_out id calls thrown s)
unfolding time_out call_back
time_out-IsSound id calls thrown s l v = delete-IsSound id _ (
    either-IsSound (id ∷ []) s.is_active _ s
      (report-IsSound (id ∷ []) thrown _
        (register_times-IsSound (id ∷ []) calls _ (calling-IsSound id s l v)))
      (weaker-IsSound id s v))

pub moved-IsSound : (s t : PollingCallback) → Step s t → IsSound [] s → IsSound [] t
unfolding stop
moved-IsSound _ _ (registers s) v = register-IsSound [] s v
moved-IsSound _ _ (times_out s id calls thrown l) v = time_out-IsSound id calls thrown s l v
moved-IsSound _ _ (stops s) v = same-IsSound [] s false s.has_messaging s.reported v
moved-IsSound _ _ (listens messaging s) v = same-IsSound [] s s.is_active messaging s.reported v

new-IsSound : (messaging : Bool) → IsSound [] (new_polling messaging)
new-IsSound messaging = record {
  kept_below = λ i l. absurd (cc);
  called_below = λ i l. absurd (cc);
  kept_once = tt;
  called_once = tt;
  called_gone = λ i l n. refl;
}

-- Whatever is registered, times out, throws or stops, in any order: every callback is called at
-- most once, and one that was called is kept no more.
pub reach-IsSound :
    (messaging : Bool) (s : PollingCallback) → Reach (new_polling messaging) s → IsSound [] s
reach-IsSound messaging _ here = new-IsSound messaging
reach-IsSound messaging s (next {t = t} r st) = moved-IsSound t s st (reach-IsSound messaging t r)
