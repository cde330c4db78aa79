-- ===== src/Engine/Idle/Ends.antt =====
-- What each end of intel_wait_engine_idle of engine.cpp says of the ring.
use native.Mathlib.Nat.{mod-eq_of_lt}
use haiku_vaio_vpceb3k1e.Engine.{finish_queue}
use haiku_vaio_vpceb3k1e.Engine.Draw.{draw_on_ring}
use haiku_vaio_vpceb3k1e.Prelude.{
  ◌^◌, ◌∙◌, ℕ, ◌+◌, ◌%◌, ◌≤◌, ◌<◌, ◌≡◌, ◌≢◌, refl, ap, sym, subst, Bool, true, false, List, [], ◌∷◌,
  Option, some, none, Bool-cases, inl, inr, if_true, if_false, arith,
}
use haiku_vaio_vpceb3k1e.Engine.Idle.{
  Waited, skipped, passed, idle, locked_up, Engine, is_past, stands_still, poll, flush_ring,
  wait_ring, wait_batches, wait_engine_idle,
}

-- One of the polls has HEAD at TAIL, the ones before it have not.
pub data IsReached : List (ℕ × ℕ) → Type 0 where
  now :
      {head tail : ℕ} {polls : List (ℕ × ℕ)}
      → stands_still head tail ≡ true
      → IsReached ((head, tail) ∷ polls)
  later :
      {head tail : ℕ} {polls : List (ℕ × ℕ)}
      → stands_still head tail ≡ false
      → IsReached polls
      → IsReached ((head, tail) ∷ polls)

abbrev pub AllMoving : List (ℕ × ℕ) → Type 0
AllMoving [] = Unit {0}
AllMoving ((head, tail) ∷ polls) = (stands_still head tail ≡ false) × AllMoving polls

-- The status page has passed the target, which is at most seven submissions behind the last one.
pub record IsPassed (last : ℕ) (status : Option ℕ) : Type 0 where
  pub seen : ℕ
  pub shown : status ≡ some seen
  pub near : last < seen + 8
  pub begun : 8 ≤ last

-- The engine behind the flush.
abbrev pub flushed : List ℕ → List ℕ → Engine → Engine
flushed heads others e = record e {
  last = (flush_ring heads others e.last e.ring).0;
  ring = (flush_ring heads others e.last e.ring).1;
}

-- What each end says, `e` being the engine behind the wait for the batches.
pub data IsEnded (status : Option ℕ) (heads others : List ℕ) (polls : List (ℕ × ℕ)) (e : Engine)
    : Waited × Engine → Type 0 where
  by_page : IsPassed e.last status → IsEnded status heads others polls e (passed, e)
  by_ring : IsReached polls → IsEnded status heads others polls e (idle, flushed heads others e)
  by_time :
      AllMoving polls → IsEnded status heads others polls e (locked_up, flushed heads others e)

data IsPolled (polls : List (ℕ × ℕ)) : Waited → Type 0 where
  reached : IsReached polls → IsPolled polls idle
  moving : AllMoving polls → IsPolled polls locked_up

IsPolled-later :
    (head tail : ℕ) (polls : List (ℕ × ℕ)) (w : Waited)
    → stands_still head tail ≡ false
    → IsPolled polls w
    → IsPolled ((head, tail) ∷ polls) w
IsPolled-later head tail polls skipped moves x = elim x [ ]
IsPolled-later head tail polls passed moves x = elim x [ ]
IsPolled-later head tail polls idle moves (reached r) = reached (later moves r)
IsPolled-later head tail polls locked_up moves (moving m) = moving (moves, m)

poll-IsPolled : (polls : List (ℕ × ℕ)) → IsPolled polls (poll polls)
unfolding poll
poll-IsPolled [] = moving tt
poll-IsPolled ((head, tail) ∷ polls) = elim (Bool-cases (stands_still head tail)) [
  | inl still ↦
      subst (IsPolled ((head, tail) ∷ polls)) (sym (if_true _ _ still)) (reached (now still))
  | inr moves ↦
      subst (IsPolled ((head, tail) ∷ polls)) (sym (if_false _ _ moves))
        (IsPolled-later head tail polls (poll polls) moves (poll-IsPolled polls))
]

is_past-IsPassed :
    (last : ℕ) (status : Option ℕ) → is_past last status ≡ true → IsPassed last status
is_past-IsPassed last none past = absurd cc
is_past-IsPassed last (some seen) past = record {
  seen = seen;
  shown = refl;
  near = ground arith;
  begun = ground arith;
}

by_polls :
    (status : Option ℕ) (heads others : List ℕ) (polls : List (ℕ × ℕ)) (e : Engine) (w : Waited)
    → IsPolled polls w
    → IsEnded status heads others polls e (w, flushed heads others e)
by_polls status heads others polls e skipped x = elim x [ ]
by_polls status heads others polls e passed x = elim x [ ]
by_polls status heads others polls e idle (reached r) = by_ring r
by_polls status heads others polls e locked_up (moving m) = by_time m

wait_ring-IsEnded :
    (status : Option ℕ) (heads others : List ℕ) (polls : List (ℕ × ℕ)) (e : Engine) (past : Bool)
    → is_past e.last status ≡ past
    → IsEnded status heads others polls e (wait_ring past heads others polls e)
wait_ring-IsEnded status heads others polls e true eq = by_page (is_past-IsPassed e.last status eq)
wait_ring-IsEnded status heads others polls e false eq =
    by_polls status heads others polls e (poll polls) (poll-IsPolled polls)

wait_batches-last : (available : Bool) (e : Engine) → (wait_batches available e).last ≡ e.last
wait_batches-last true e = refl
wait_batches-last false e = refl

-- On a device whose engine is waited for, intel_wait_engine_idle waits for the batches, where that path
-- is on, and then ends in one of three ways: at once, with the ring as it is, and the status page then
-- shows a number less than eight behind the last submission; behind a flush, with HEAD found at TAIL;
-- or behind a flush with HEAD never found at TAIL before the time is over.
pub wait_engine_idle-IsEnded :
    (available : Bool) (status : Option ℕ) (heads others : List ℕ) (polls : List (ℕ × ℕ))
    (e : Engine)
    → IsEnded status heads others polls
        (wait_batches available e)
        (wait_engine_idle false available status heads others polls e)
unfolding wait_engine_idle
wait_engine_idle-IsEnded available status heads others polls e =
    wait_ring-IsEnded status heads others polls (wait_batches available e) (is_past e.last status)
      (ap (λ n. is_past n status) (wait_batches-last available e))

-- The engine behind a drawing on the ring.
abbrev pub drawn : (ℕ → List ℕ) → List (List ℕ) → Engine → Engine
drawn made cs e = record e {
  last = (draw_on_ring made e.last cs e.ring).0;
  ring = (draw_on_ring made e.last cs e.ring).1;
}

number-drawn :
    (made : ℕ → List ℕ) (cs : List (List ℕ)) (e : Engine)
    → (drawn made cs e).last ≡ (e.last + 1) % 2 ^ 32
unfolding draw_on_ring finish_queue
number-drawn made cs e = refl

is_past-next :
    (last seen : ℕ)
    → (last + 1) % 8 ≢ 0
    → is_past last (some seen) ≡ true
    → is_past (last + 1) (some seen) ≡ true
is_past-next last seen other past = ground arith

-- Where the status page already shows what the wait asks for, at a number `seen` up to that of the last
-- submission, a further drawing on the ring, whose number is no multiple of eight, is not waited for:
-- intel_wait_engine_idle ends at once, with the drawing in the ring and whatever HEAD and TAIL show,
-- though the number shown is below that of the drawing.
pub wait_engine_idle-misses :
    (available : Bool) (seen : ℕ) (heads others : List ℕ) (polls : List (ℕ × ℕ)) (made : ℕ → List ℕ)
    (cs : List (List ℕ)) (e : Engine)
    → e.last + 1 < 2 ^ 32
    → (e.last + 1) % 8 ≢ 0
    → seen ≤ e.last
    → is_past e.last (some seen) ≡ true
    → (wait_engine_idle false available (some seen) heads others polls (drawn made cs e)
        ≡ (passed, wait_batches available (drawn made cs e)))
      × (seen < (drawn made cs e).last)
unfolding wait_engine_idle
wait_engine_idle-misses available seen heads others polls made cs e small other up_to past = (
  ap (λ b. wait_ring b heads others polls (wait_batches available (drawn made cs e)))
      (ap (λ n. is_past n (some seen)) number ∙ is_past-next e.last seen other past),
  omega (arith, number),
)
  where
    number : (drawn made cs e).last ≡ e.last + 1
    number = number-drawn made cs e ∙ mod-eq_of_lt {n = e.last + 1} {m = 2 ^ 32} small
