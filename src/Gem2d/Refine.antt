-- ===== src/Gem2d/Refine.antt =====
-- The queue of gem2d.cpp against its specification: a list of batches that the GPU has been given
-- and the commands of the one that is filled.
use haiku_vaio_vpceb3k1e.Prelude.{
  ℕ, ◌+◌, ◌≤◌, ◌≡◌, refl, ap, ap₂, sym, subst, ◌∙◌, Bool, true, false, not, ◌||◌, List, [], ◌∷◌,
  ◌++◌, map, append-nil, map-append, if◌then◌else◌, ltb, ◌==◌, length, arith, Bool-cases, inl, inr,
  ==_iff, if_true, if_false,
}
use haiku_vaio_vpceb3k1e.Prelude.Memory.{write_bytes, read_bytes, read-write_behind, Memory}
use haiku_vaio_vpceb3k1e.Gem2d.{
  Request, State, Kernel, batch_size, handle_of, store, next_batch, open_next, trailer, submit,
  gem2d_begin, gem2d_end,
}
use haiku_vaio_vpceb3k1e.Gem2d.Requests.{executed, closed, busy, executed-append, busy-append}

-- The specification.
pub record Queue : Type 0 where
  pub batches : List (List ℕ)
  pub pending : List ℕ

unfoldable pub queue_end : Queue → Queue
queue_end q =
    if length q.pending == 0
    then record q { pending = [] }
    else record q { batches = q.batches ++ (q.pending ∷ []); pending = [] }

unfoldable pub queue_add : List ℕ → Queue → Queue
unfolding queue_end
queue_add commands q =
    let r = if ltb batch_size (length q.pending + length commands + 16) then queue_end q else q in
    record r { pending = r.pending ++ commands }

abbrev pub concat : List (List ℕ) → List ℕ
concat [] = []
concat (x ∷ xs) = x ++ concat xs

-- All commands of a queue in their order.
abbrev pub stream : Queue → List ℕ
stream q = concat q.batches ++ q.pending

-- The open batch: its bytes are the pending commands, there is room for the trailer, and the GPU has
-- been waited for.
pub record IsFilled (s : State) (pending : List ℕ) : Type 0 where
  pub size : length pending ≡ s.position
  pub bytes : read_bytes (s.maps s.current) 0 s.position ≡ pending
  pub room : s.position + 16 ≤ batch_size
  pub idle : busy false s.log (handle_of s s.current) ≡ false

pub record Refines (s : State) (q : Queue) : Type 0 where
  pub on : s.available ≡ true
  pub sent : executed s.log ≡ map closed q.batches
  pub filled : s.is_open ≡ true → IsFilled s q.pending
  pub nothing : s.is_open ≡ false → q.pending ≡ []

open_next-Refines :
    (s : State) (q : Queue) → Refines s q → s.is_open ≡ false → Refines (open_next s) q
unfolding read_bytes
open_next-Refines s q r e = record {
  on = r.on;
  sent = executed-append s.log _ ∙ append-nil (executed s.log) ∙ r.sent;
  filled = λ h. record {
    size = ap length (r.nothing e);
    bytes = sym (r.nothing e);
    room = omega arith;
    idle = busy-append false s.log _ _ ∙ waited (busy false s.log (handle_of s (next_batch s)));
  };
  nothing = λ h. absurd (cc h);
}
  where
    waited :
        (b : Bool)
        → (if handle_of s (next_batch s) == handle_of s (next_batch s) then false else b) ≡ false
    waited b = ground arith

pub begin-Refines :
    (s : State) (q : Queue)
    → Refines s q
    → Refines (gem2d_begin s) q × ((gem2d_begin s).is_open ≡ true)
unfolding gem2d_begin
begin-Refines s q r = elim (Bool-cases s.is_open) [
  | inl e ↦
      subst (λ (t : State). Refines t q × (t.is_open ≡ true))
        (sym (if_true _ _ (ap₂ (λ a b. not a || b) r.on e))) (r, e)
  | inr e ↦
      subst (λ (t : State). Refines t q × (t.is_open ≡ true))
        (sym (if_false _ _ (ap₂ (λ a b. not a || b) r.on e))) (open_next-Refines s q r e, refl)
]

different : false ≡ true → ⊥
different e = cc

-- The map of the open batch behind a write into it.
pub store-current :
    (s : State) (bytes : List ℕ)
    → store s.maps s.current s.position bytes s.current
      ≡ write_bytes (s.maps s.current) s.position bytes
store-current s bytes = if_true _ _ ((==_iff s.current s.current).1 refl)

module _ (kernel : Kernel) (takes : (log : List Request) → kernel.executes log ≡ true) where
  submit-Refines :
      (s : State) (q : Queue)
      → s.available ≡ true
      → executed s.log ≡ map closed q.batches
      → IsFilled s q.pending
      → s.is_open ≡ false
      → Refines (submit kernel s) (record { batches = q.batches ++ (q.pending ∷ []); pending = [] })
  unfolding submit
  submit-Refines s q on sent f shut = record {
    on = takes _;
    sent =
        executed-append s.log _
        ∙ ap₂ (λ a b. a ++ b) sent (ap (λ b. b ∷ []) batch)
        ∙ sym (map-append closed q.batches (q.pending ∷ []));
    filled = λ h. absurd (different (sym shut ∙ h));
    nothing = λ h. refl;
  }
    where
      tail : List ℕ
      tail = trailer s.position

      batch :
          read_bytes (store s.maps s.current s.position tail s.current) 0 (s.position + length tail)
          ≡ closed q.pending
      batch =
          ap (λ (m : Memory). read_bytes m 0 (s.position + length tail)) (store-current s tail)
          ∙ read-write_behind (s.maps s.current) s.position q.pending tail f.bytes
          ∙ ap (λ n. q.pending ++ trailer n) (sym f.size)

  pub end-Refines :
      (s : State) (q : Queue)
      → Refines s q
      → Refines (gem2d_end kernel s) (queue_end q) × ((gem2d_end kernel s).is_open ≡ false)
  unfolding gem2d_end queue_end
  end-Refines s q r = elim (Bool-cases s.is_open) [
    | inl e ↦
        subst P (sym (if_false _ _ (ap₂ (λ a b. not a || not b) r.on e)))
          (elim (Bool-cases (s.position == 0)) [
            | inl z ↦ subst P (sym (if_true _ _ z)) (
                subst (λ q'. Refines shut q' × (shut.is_open ≡ false))
                  (sym (if_true _ _ (ap (λ n. n == 0) (r.filled e).size ∙ z)))
                  (
                    record {
                      on = r.on;
                      sent = r.sent;
                      filled = λ h. absurd (cc h);
                      nothing = λ h. refl;
                    },
                    refl,
                  ))
            | inr z ↦ subst P (sym (if_false _ _ z)) (
                subst (λ q'. Refines (submit kernel shut) q' × (shut.is_open ≡ false))
                  (sym (if_false _ _ (ap (λ n. n == 0) (r.filled e).size ∙ z)))
                  (submit-Refines shut q r.on r.sent (refill (r.filled e)) refl, refl))
          ])
    | inr e ↦ subst P (sym (if_true _ _ (ap₂ (λ a b. not a || not b) r.on e))) (
        subst (λ q'. Refines s q' × (s.is_open ≡ false))
          (sym (if_true _ _ (ap (λ l. length l == 0) (r.nothing e))))
          (
            record {
              on = r.on;
              sent = r.sent;
              filled = λ h. absurd (different (sym e ∙ h));
              nothing = λ h. refl;
            },
            e,
          ))
  ]
    where
      P : State → Type 0
      P t = Refines t (queue_end q) × (t.is_open ≡ false)

      shut : State
      shut = record s { is_open = false }

      refill : IsFilled s q.pending → IsFilled shut q.pending
      refill f = record { size = f.size; bytes = f.bytes; room = f.room; idle = f.idle }
