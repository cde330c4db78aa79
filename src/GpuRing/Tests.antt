-- ===== src/GpuRing/Tests.antt =====
-- The ring functions of gpu_ring.cpp on a ring of 256 bytes.
use haiku_vaio_vpceb3k1e.Prelude.{
  ℕ, ◌+◌, ◌-◌, ◌^◌, ◌<◌, ◌≡◌, ◌⊎◌, refl, List, [], ◌∷◌, true, arith, get_or, replicate,
}
use haiku_vaio_vpceb3k1e.GpuRing.{
  GpuRing, Poll, ok, timed_out, ring_is_idle, fill_noops, wait_until, reserve, begin, emit,
  emit_all, advance, fill_reserved, submit, wait_idle,
}
use haiku_vaio_vpceb3k1e.GpuRing.Emit.{IsValid}
use haiku_vaio_vpceb3k1e.GpuRing.Begin.{Reserved, begin-Reserved}
use haiku_vaio_vpceb3k1e.GpuRing.Outcomes.{begin-IsValid, begin-overflow}
use haiku_vaio_vpceb3k1e.GpuRing.Submit.{Submitted, submit-Submitted}

-- A ring at the given position.
abbrev ring_at : ℕ → GpuRing
ring_at p = record {
  base = replicate 64 7;
  size = 256;
  pos = p;
  emit_start = 0;
  emit_count = 0;
  emit_reserved = 0;
}

abbrev ring_near_end : GpuRing
ring_near_end = ring_at 200

ring_near_end-IsValid : IsValid ring_near_end
ring_near_end-IsValid = record {
  order = 6;
  size_eq = refl;
  big = omega arith;
  small = omega arith;
  memory = refl;
  whole = refl;
  inside = omega arith;
}

-- The GPU reads at the given byte, with work left.
abbrev busy_at : ℕ → Poll
busy_at h = record { head_reg = h; idle_head_reg = h; idle_tail_reg = 200 }

abbrev idle : Poll
idle = record { head_reg = 200; idle_head_reg = 200; idle_tail_reg = 200 }

abbrev three_words : List ℕ
three_words = 11 ∷ 22 ∷ 33 ∷ []

submit_wraps :
    (submit ring_near_end (busy_at 100 ∷ []) (busy_at 4 ∷ busy_at 100 ∷ []) three_words 3 true).0
    ≡ ok
unfolding submit begin reserve wait_until fill_noops ring_is_idle fill_reserved emit_all emit
    advance
submit_wraps = refl

submit-Submitted_example :
    Submitted ring_near_end three_words
      (submit ring_near_end (busy_at 100 ∷ []) (busy_at 4 ∷ busy_at 100 ∷ []) three_words 3 true).1
submit-Submitted_example =
    submit-Submitted ring_near_end (busy_at 100 ∷ []) (busy_at 4 ∷ busy_at 100 ∷ []) three_words
      ring_near_end-IsValid (omega arith) true submit_wraps

begin_wraps : (begin ring_near_end (busy_at 100 ∷ []) (busy_at 100 ∷ []) 5).0 ≡ ok
unfolding begin reserve wait_until fill_noops ring_is_idle
begin_wraps = refl

begin-Reserved_example :
    Reserved ring_near_end
      (busy_at 100 ∷ [])
      5
      (begin ring_near_end (busy_at 100 ∷ []) (busy_at 100 ∷ []) 5).1
begin-Reserved_example =
    begin-Reserved ring_near_end (busy_at 100 ∷ []) (busy_at 100 ∷ []) 5 ring_near_end-IsValid
      begin_wraps

-- A GPU that stays inside the words to be written makes the wait run out.
begin_times_out :
    (begin ring_near_end (busy_at 100 ∷ []) (busy_at 4 ∷ busy_at 8 ∷ []) 5).0 ≡ timed_out
unfolding begin reserve wait_until fill_noops ring_is_idle
begin_times_out = refl

begin-IsValid_example :
    let r' = (begin ring_near_end (busy_at 100 ∷ []) (busy_at 4 ∷ busy_at 8 ∷ []) 5).1 in
    IsValid r'
    × ((r'.pos ≡ 200) ⊎ (r'.pos ≡ 0))
    × ((k : ℕ) → k < 50 → get_or r'.base k 0 ≡ get_or ring_near_end.base k 0)
begin-IsValid_example =
    begin-IsValid ring_near_end (busy_at 100 ∷ []) (busy_at 4 ∷ busy_at 8 ∷ []) 5
      ring_near_end-IsValid

abbrev ring_at_start : GpuRing
ring_at_start = ring_at 0

ring_at_start-IsValid : IsValid ring_at_start
ring_at_start-IsValid = record {
  order = 6;
  size_eq = refl;
  big = omega arith;
  small = omega arith;
  memory = refl;
  whole = refl;
  inside = omega arith;
}

idle_poll : ring_is_idle 256 idle ≡ true
unfolding ring_is_idle
idle_poll = refl

begin-overflow_example :
    begin ring_at_start [] (idle ∷ []) (2 ^ 30 - 2 + 4)
    ≡ (ok, record ring_at_start { emit_start = 0; emit_count = 0; emit_reserved = 2 ^ 30 - 2 + 4 })
begin-overflow_example =
    begin-overflow ring_at_start [] idle [] 4 ring_at_start-IsValid (omega arith) idle_poll

wait_idle_runs : wait_idle ring_at_start (busy_at 8 ∷ idle ∷ []) ≡ true
unfolding wait_idle wait_until ring_is_idle
wait_idle_runs = refl
