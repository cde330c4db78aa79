-- ===== src/Gem/Exec/Commands.antt =====
-- ExecCommands of GemManager.cpp, from the ring before it to the ring after it.
use native.Mathlib.Nat.{pow-succ', one-le-pow}
use haiku_vaio_vpceb3k1e.Prelude.{
  ltb, ℕ, zero, suc, ◌+◌, ◌*◌, ◌%◌, ◌^◌, ◌≤◌, ◌<◌, bit_and, ◌≡◌, ◌≢◌, ◌⊎◌, inl, inr, refl, ap, ◌∙◌,
  sym, subst, List, [], ◌∷◌, arith, length, length-append, Bool, true, false, Bool-cases, ◌==◌,
  none, some,
}
use haiku_vaio_vpceb3k1e.Prelude.Bits.{bit_and-mask, mod_double}
use haiku_vaio_vpceb3k1e.Gem.Buffers.{ok, bad_value, dev_not_ready, timed_out}
use haiku_vaio_vpceb3k1e.Gem.Ring.{RingBuffer, make_space, space_from}
use haiku_vaio_vpceb3k1e.Gem.Ring.Write.{
  IsValid, slot, slots, Wrote, ring_write_all-Wrote, make_space_lem,
}
use haiku_vaio_vpceb3k1e.Gem.Exec.{Outcome, framed, total_dw, send_commands, exec_commands}

-- `space` is what the ring's free bytes are for one of the values of HEAD.
pub data IsRead (free : ℕ → ℕ) (space : ℕ) : List ℕ → Type 0 where
  first : {h : ℕ} {hs : List ℕ} → space ≡ free h → IsRead free space (h ∷ hs)
  further : {h : ℕ} {hs : List ℕ} → IsRead free space hs → IsRead free space (h ∷ hs)

-- The words stand in the ring behind the old position, there was room for `needed` bytes, by the count
-- of free bytes before or by a value of HEAD, and TAIL was given the position behind the words.
pub record Sent (heads : List ℕ) (r : RingBuffer) (ws : List ℕ) (needed : ℕ) (out : Outcome)
    : Type 0 where
  pub space : ℕ
  pub room : needed ≤ space
  pub shown : (space ≡ r.space_left) ⊎ IsRead (space_from r) space heads
  pub wrote : Wrote (record r { space_left = space }) ws out.1
  pub tail : out.2 ≡ some out.1.position

make_space-shown :
    (needed : ℕ) (heads : List ℕ) (r : RingBuffer)
    → ((make_space needed heads r).1.space_left ≡ r.space_left)
      ⊎ IsRead (space_from r) (make_space needed heads r).1.space_left heads
unfolding make_space
make_space-shown needed [] r = inl refl
make_space-shown needed (h ∷ hs) r = elim (Bool-cases (ltb r.space_left needed)) [
  | inl short ↦ inr (
      rw short (elim (make_space-shown needed hs (record r { space_left = space_from r h })) [
        | inl e ↦ first e
        | inr e ↦ further e
      ]))
  | inr enough ↦ inl (rw enough refl)
]

-- The wait for room changes the count of free bytes only, to one that was shown.
abbrev pub Made : ℕ → List ℕ → RingBuffer → Type 0
Made needed heads r =
    (b : Bool) × (space : ℕ) × (make_space needed heads r ≡ (b, record r { space_left = space }))
    × (b ≡ true → needed ≤ space)
    × ((space ≡ r.space_left) ⊎ IsRead (space_from r) space heads)

pub make_space-same : (needed : ℕ) (heads : List ℕ) (r : RingBuffer) → Made needed heads r
make_space-same needed heads r =
    let (base, size, position, room) = make_space_lem needed heads r in
    (
      (make_space needed heads r).0,
      (make_space needed heads r).1.space_left,
      ground (arith, base, size, position),
      room,
      make_space-shown needed heads r,
    )

pub with_space :
    (r : RingBuffer) (space : ℕ) → IsValid r → IsValid (record r { space_left = space })
with_space r space v = record {
  order = v.order;
  size_eq = v.size_eq;
  small = v.small;
  memory = v.memory;
  whole = v.whole;
  inside = v.inside;
}

pub length-framed : (cmds : List ℕ) → length (framed cmds) ≡ length cmds + 4
length-framed cmds = omega (arith, length-append cmds (_ ∷ _ ∷ []))

odd_bit : (x : ℕ) → bit_and x 1 ≡ x % 2
odd_bit x = bit_and-mask 1 x

-- The total is rounded up to an even number before it is looked at, so that nothing is padded.
total_dw-even :
    (n : ℕ)
    → n < 2 ^ 29
    → ((bit_and (total_dw n) 1 == 1) ≡ false)
      × (4 * (n + 4) ≤ total_dw n * 4 % 2 ^ 32)
      × (total_dw n * 4 % 2 ^ 32 < 2 ^ 32)
total_dw-even n small = elim (Bool-cases (bit_and ((n + 4) % 2 ^ 32) 1 == 1)) [
  | inl odd ↦ rw odd (
      ground (
        arith,
        odd_bit ((n + 4) % 2 ^ 32 + 1),
        odd_bit ((n + 4) % 2 ^ 32),
        odd_bit (((n + 4) % 2 ^ 32 + 1) % 2 ^ 32),
      ))
  | inr even ↦ rw even (ground (arith, odd_bit ((n + 4) % 2 ^ 32)))
]

send_ok :
    (heads : List ℕ) (r : RingBuffer) (cmds : List ℕ) (needed total : ℕ) (b : Bool) (space : ℕ)
    → IsValid r
    → length cmds + 4 ≤ slots r
    → (bit_and total 1 == 1) ≡ false
    → (b ≡ true → needed ≤ space)
    → (space ≡ r.space_left) ⊎ IsRead (space_from r) space heads
    → (send_commands cmds total (b, record r { space_left = space })).0 ≡ ok
    → Sent heads r
        (framed cmds)
        needed
        (send_commands cmds total (b, record r { space_left = space }))
unfolding send_commands
send_ok heads r cmds needed total false space v fits even room shown h = absurd (late h)
  where
    late : timed_out ≡ ok → ⊥
    late e = cc
send_ok heads r cmds needed total true space v fits even room shown h = rw even (record {
  space = space;
  room = room refl;
  shown = shown;
  wrote =
      ring_write_all-Wrote (framed cmds) (record r { space_left = space }) (with_space r space v)
        (omega (arith, length-framed cmds));
  tail = refl;
})

-- A ring of at least two slots has an even number of them, so that a turn keeps the parity.
slots_even : (x : ℕ) (r : RingBuffer) → IsValid r → 2 ≤ slots r → x % slots r % 2 ≡ x % 2
slots_even x r v two = half v.order (omega (arith, v.size_eq))
  where
    half : (k : ℕ) → slots r ≡ 2 ^ k → x % slots r % 2 ≡ x % 2
    half zero e = absurd (omega arith)
    half (suc k) e =
        rw (e, pow-succ' 2 k) (omega (arith, mod_double (2 ^ k) x (one-le-pow k 2 (omega arith))))

abbrev pub Kept : RingBuffer → Outcome → Type 0
Kept r o = (space : ℕ) × (o.1 ≡ record r { space_left = space }) × (o.2 ≡ none)

send_fails :
    (r : RingBuffer) (cmds : List ℕ) (total : ℕ) (b : Bool) (space : ℕ)
    → (send_commands cmds total (b, record r { space_left = space })).0 ≢ ok
    → Kept r (send_commands cmds total (b, record r { space_left = space }))
unfolding send_commands
send_fails r cmds total false space h = (space, refl, refl)
send_fails r cmds total true space h = absurd (h refl)

abbrev answer : ℕ → ℕ → List ℕ → List ℕ → RingBuffer → Outcome
answer esr ring_ctl heads cmds r = exec_commands esr ring_ctl heads (some cmds) r

module _ (esr ring_ctl : ℕ) (heads cmds : List ℕ) (r : RingBuffer) where
  -- The answers of `exec_commands` up to the wait for room.
  guards :
      ((bad_value, r, none) ≡ answer esr ring_ctl heads cmds r)
      ⊎ (((dev_not_ready, r, none) ≡ answer esr ring_ctl heads cmds r)
          ⊎ (send_commands cmds
                (total_dw (length cmds))
                (make_space (total_dw (length cmds) * 4 % 2 ^ 32) heads r)
              ≡ answer esr ring_ctl heads cmds r))
  unfolding exec_commands
  guards = elim (Bool-cases (length cmds == 0)) [
    | inl empty ↦ inl (rw empty refl)
    | inr some_cmds ↦ elim (Bool-cases (bit_and esr 1 == 1)) [
      | inl hung ↦ inr (inl (rw (some_cmds, hung) refl))
      | inr alive ↦ elim (Bool-cases (bit_and ring_ctl 1 == 1)) [
        | inl on ↦ inr (inr (rw (some_cmds, alive, on) refl))
        | inr off ↦ inr (inl (rw (some_cmds, alive, off) refl))
      ]
    ]
  ]

  -- Where ExecCommands succeeds on a well-formed ring that can hold the commands with the flush
  -- before and after them, these words stand in the ring in order from the old position on, round
  -- its end if need be, nothing else in it is changed, the free bytes, as they were counted before or
  -- as a value of HEAD shows them, were enough for these words, and TAIL is given the position behind
  -- them.
  pub exec_commands-Sent :
      IsValid r
      → length cmds + 4 ≤ slots r
      → (exec_commands esr ring_ctl heads (some cmds) r).0 ≡ ok
      → Sent heads r
          (framed cmds)
          (4 * (length cmds + 4))
          (exec_commands esr ring_ctl heads (some cmds) r)
  exec_commands-Sent v fits h = elim guards [
    | inl e ↦ absurd (bad (ap (λ (o : Outcome). o.0) e ∙ h))
    | inr (inl e) ↦ absurd (dead (ap (λ (o : Outcome). o.0) e ∙ h))
    | inr (inr e) ↦
        subst (Sent heads r (framed cmds) (4 * (length cmds + 4))) e
          (sent (ap (λ (o : Outcome). o.0) e ∙ h))
  ]
    where
      bad : bad_value ≡ ok → ⊥
      bad e = cc

      dead : dev_not_ready ≡ ok → ⊥
      dead e = cc

      total : ℕ
      total = total_dw (length cmds)

      made : Made (total * 4 % 2 ^ 32) heads r
      made = make_space-same (total * 4 % 2 ^ 32) heads r

      even :
          ((bit_and total 1 == 1) ≡ false)
          × (4 * (length cmds + 4) ≤ total * 4 % 2 ^ 32)
          × (total * 4 % 2 ^ 32 < 2 ^ 32)
      even = total_dw-even (length cmds) (omega (arith, v.small))

      sent :
          (send_commands cmds total (make_space (total * 4 % 2 ^ 32) heads r)).0 ≡ ok
          → Sent heads r
              (framed cmds)
              (4 * (length cmds + 4))
              (send_commands cmds total (make_space (total * 4 % 2 ^ 32) heads r))
      sent h' = rw made.2 (
          send_ok heads r cmds (4 * (length cmds + 4)) total made.0 made.1 v fits even.0
            (λ t. omega (arith, made.3 t, even.1)) made.4 (rw made.2 at h'))

  -- Where ExecCommands does not succeed, the ring's memory, size and position are as they were, and
  -- TAIL is not written.
  pub exec_commands-fails :
      (exec_commands esr ring_ctl heads (some cmds) r).0 ≢ ok
      → Kept r (exec_commands esr ring_ctl heads (some cmds) r)
  exec_commands-fails h = elim guards [
    | inl e ↦ subst (Kept r) e (r.space_left, refl, refl)
    | inr (inl e) ↦ subst (Kept r) e (r.space_left, refl, refl)
    | inr (inr e) ↦ subst (Kept r) e (
        rw made.2 (
          send_fails r cmds total made.0 made.1
            (λ k. h (sym (ap (λ (o : Outcome). o.0) e) ∙ rw made.2 k))))
  ]
    where
      total : ℕ
      total = total_dw (length cmds)

      made : Made (total * 4 % 2 ^ 32) heads r
      made = make_space-same (total * 4 % 2 ^ 32) heads r

  -- With an odd number of commands, ExecCommands takes a ring position that is a multiple of 8 bytes
  -- to one that is not, and gives it to TAIL: the padding to a quad word is never written.
  pub exec_commands-unaligned :
      IsValid r
      → length cmds + 4 ≤ slots r
      → (exec_commands esr ring_ctl heads (some cmds) r).0 ≡ ok
      → r.position % 8 ≡ 0
      → length cmds % 2 ≡ 1
      → (exec_commands esr ring_ctl heads (some cmds) r).1.position % 8 ≡ 4
  exec_commands-unaligned v fits h aligned odd =
      omega (arith, w.moved, length-framed cmds, parity, w.valid.whole)
    where
      w :
          Wrote
            (record r { space_left = (exec_commands-Sent v fits h).space })
            (framed cmds)
            (exec_commands esr ring_ctl heads (some cmds) r).1
      w = (exec_commands-Sent v fits h).wrote

      parity : (slot r + length (framed cmds)) % slots r % 2 ≡ (slot r + length (framed cmds)) % 2
      parity = slots_even (slot r + length (framed cmds)) r v (omega arith)
