-- ===== src/Wire/Timers/Stopped.antt =====
-- class PollingCallback (packages/core/src/lib/basics.ts) after `stop`.
use tern_scheduler.Prelude.{
  ℕ, suc, ◌+◌, ◌≡◌, refl, arith, Bool, true, false, ◌==◌, if◌then◌else◌, Option, List, [], ◌∷◌,
  length, Bool-cases, inl, inr, ap, sym,
}
use tern_scheduler.Errors.{Error}
use tern_scheduler.Cron.Next.Values.{listed}
use tern_scheduler.Cron.Expression.Sets.{IsDistinct}
use tern_scheduler.Wire.Timers.{
  PollingCallback, active_count, register_poll_callback, set_event_emitter, stop, delete_callback,
  time_out, registers, times_out, stops, listens, Reach, here, next,
}
use tern_scheduler.Wire.Timers.Once.{without, IsSound, moved-IsSound}

length-without_other :
    (id : ℕ) (xs : List ℕ) → listed id xs ≡ false → length (without id xs) ≡ length xs
length-without_other id [] l = refl
length-without_other id (x ∷ xs) l =
    let other : (x == id) ≡ false = ground (arith, l) in
    rw other (ap suc (length-without_other id xs (ground (arith, l))))

length-without :
    (id : ℕ) (xs : List ℕ)
    → IsDistinct xs
    → listed id xs ≡ true
    → suc (length (without id xs)) ≡ length xs
length-without id [] d l = absurd (cc)
length-without id (x ∷ xs) d l = elim (Bool-cases (x == id)) [
  | inl e ↦
      let same : x ≡ id = ground (arith, e) in
      rw e (ap suc (length-without_other id xs (rw (sym same) d.0)))
  | inr e ↦ rw e (ap suc (length-without id xs d.1 (ground (arith, e, l))))
]

if_false : (b : Bool) (s t : PollingCallback) → b ≡ false → (if b then s else t) ≡ t
if_false true s t e = absurd (cc)
if_false false s t e = refl

register-stopped : (s : PollingCallback) → s.is_active ≡ false → register_poll_callback s ≡ s
unfolding register_poll_callback
register-stopped s e = if_false s.is_active _ s e

time_out-stopped :
    (id calls : ℕ) (thrown : Option Error) (s : PollingCallback)
    → s.is_active ≡ false
    → time_out id calls thrown s ≡ delete_callback id s
unfolding time_out
time_out-stopped id calls thrown s e = ap (delete_callback id) (if_false s.is_active _ s e)

-- The timers that run out on a way.
unfoldable pub time_outs : {s t : PollingCallback} → Reach s t → ℕ
time_outs here = 0
time_outs (next r (registers t)) = time_outs r
time_outs (next r (times_out t id calls thrown l)) = suc (time_outs r)
time_outs (next r (stops t)) = time_outs r
time_outs (next r (listens messaging t)) = time_outs r

-- A stopped object that has called what `s` has, after so many timers.
record IsDraining (s t : PollingCallback) (timers : ℕ) : Type 0 where
  is_sound : IsSound [] t
  inactive : t.is_active ≡ false
  none_called : t.called ≡ s.called
  fewer : active_count t + timers ≡ active_count s

registers-IsDraining :
    (s t : PollingCallback) (n : ℕ) → IsDraining s t n → IsDraining s (register_poll_callback t) n
registers-IsDraining s t n d = rw (register-stopped t d.inactive) d

times_out-IsDraining :
    (s t : PollingCallback) (n id calls : ℕ) (thrown : Option Error)
    → listed id t.running_callbacks ≡ true
    → IsDraining s t n
    → IsDraining s (time_out id calls thrown t) (suc n)
unfolding delete_callback
times_out-IsDraining s t n id calls thrown l d =
    let sound =
      moved-IsSound t (time_out id calls thrown t) (times_out t id calls thrown l) d.is_sound in
    let gone = time_out-stopped id calls thrown t d.inactive in
    record {
      is_sound = sound;
      inactive = rw gone d.inactive;
      none_called = rw gone d.none_called;
      fewer =
          rw gone
            (omega (arith, d.fewer, length-without id t.running_callbacks d.is_sound.kept_once l));
    }

reach-IsDraining :
    (s t : PollingCallback) (r : Reach s t)
    → IsSound [] s
    → s.is_active ≡ false
    → IsDraining s t (time_outs r)
unfolding time_outs stop
reach-IsDraining s _ here v e = record {
  is_sound = v;
  inactive = e;
  none_called = refl;
  fewer = omega arith;
}
reach-IsDraining s _ (next r (registers t)) v e =
    registers-IsDraining s t (time_outs r) (reach-IsDraining s t r v e)
reach-IsDraining s _ (next r (times_out t id calls thrown l)) v e =
    times_out-IsDraining s t (time_outs r) id calls thrown l (reach-IsDraining s t r v e)
reach-IsDraining s _ (next r (stops t)) v e =
    let d = reach-IsDraining s t r v e in
    record {
      is_sound = moved-IsSound t (stop t) (stops t) d.is_sound;
      inactive = refl;
      none_called = d.none_called;
      fewer = d.fewer;
    }
reach-IsDraining s _ (next r (listens messaging t)) v e =
    let d = reach-IsDraining s t r v e in
    record {
      is_sound = moved-IsSound t (set_event_emitter messaging t) (listens messaging t) d.is_sound;
      inactive = d.inactive;
      none_called = d.none_called;
      fewer = d.fewer;
    }

-- From a stopped object on that meets the invariant `IsSound`, whatever happens in any order, no
-- callback is called, and every timer that runs out leaves one callback less: when as many have
-- run out as callbacks were kept, none is left.
pub reach_stopped :
    (s t : PollingCallback) (r : Reach s t)
    → IsSound [] s
    → s.is_active ≡ false
    → (t.called ≡ s.called) × (active_count t + time_outs r ≡ active_count s)
reach_stopped s t r v e = let d = reach-IsDraining s t r v e in (d.none_called, d.fewer)
