-- ===== src/Prelude/Memory.antt =====
-- A mapped memory as a function of the offset, with runs of bytes in it.
use haiku_vaio_vpceb3k1e.Prelude.{
  ℕ, zero, suc, ◌+◌, ◌≤◌, ◌<◌, ◌≡◌, refl, ap, ap₂, ◌∙◌, List, [], ◌∷◌, ◌++◌, length, if◌then◌else◌,
  ◌==◌, arith,
}

abbrev pub Memory : Type 0
Memory = ℕ → ℕ

abbrev pub put : Memory → ℕ → ℕ → Memory
put m p b o = if o == p then b else m o

-- The bytes written from `p` on, and the `n` bytes read from there.
unfoldable pub write_bytes : Memory → ℕ → List ℕ → Memory
write_bytes m p [] = m
write_bytes m p (b ∷ bs) = write_bytes (put m p b) (suc p) bs

unfoldable pub read_bytes : Memory → ℕ → ℕ → List ℕ
read_bytes m p zero = []
read_bytes m p (suc n) = m p ∷ read_bytes m (suc p) n

pub write_bytes-below :
    (m : Memory) (p : ℕ) (bs : List ℕ) (o : ℕ) → o < p → write_bytes m p bs o ≡ m o
unfolding write_bytes
write_bytes-below m p [] o lt = refl
write_bytes-below m p (b ∷ bs) o lt =
    write_bytes-below (put m p b) (suc p) bs o (omega arith) ∙ ground arith

pub read-write :
    (m : Memory) (p : ℕ) (bs : List ℕ) → read_bytes (write_bytes m p bs) p (length bs) ≡ bs
unfolding write_bytes read_bytes
read-write m p [] = refl
read-write m p (b ∷ bs) =
    ap₂ (λ x xs. x ∷ xs) (write_bytes-below (put m p b) (suc p) bs p (omega arith) ∙ ground arith)
      (read-write (put m p b) (suc p) bs)

pub read-write_below :
    (m : Memory) (q n p : ℕ) (bs : List ℕ)
    → q + n ≤ p
    → read_bytes (write_bytes m p bs) q n ≡ read_bytes m q n
unfolding read_bytes
read-write_below m q zero p bs le = refl
read-write_below m q (suc n) p bs le =
    ap₂ (λ x xs. x ∷ xs) (write_bytes-below m p bs q (omega arith))
      (read-write_below m (suc q) n p bs (omega arith))

pub read-add :
    (m : Memory) (p a b : ℕ) → read_bytes m p (a + b) ≡ read_bytes m p a ++ read_bytes m (p + a) b
unfolding read_bytes
read-add m p zero b = ap₂ (λ (q n : ℕ). read_bytes m q n) {x = p} {y = p + 0} (omega arith) nothing
  where
    nothing : 0 + b ≡ b
    nothing = omega arith
read-add m p (suc a) b =
    ap (read_bytes m p) sum
    ∙ ap (λ xs. m p ∷ xs)
        (read-add m (suc p) a b
          ∙ ap (λ q. read_bytes m (suc p) a ++ read_bytes m q b) {x = suc p + a} {y = p + suc a}
              (omega arith))
  where
    sum : suc a + b ≡ suc (a + b)
    sum = omega arith

pub length-read_bytes : (m : Memory) (p n : ℕ) → length (read_bytes m p n) ≡ n
unfolding read_bytes
length-read_bytes m p zero = refl
length-read_bytes m p (suc n) = ap (λ (k : ℕ). suc k) (length-read_bytes m (suc p) n)

-- Bytes written behind the first `p` ones.
pub read-write_behind :
    (m : Memory) (p : ℕ) (xs bs : List ℕ)
    → read_bytes m 0 p ≡ xs
    → read_bytes (write_bytes m p bs) 0 (p + length bs) ≡ xs ++ bs
read-write_behind m p xs bs e =
    read-add (write_bytes m p bs) 0 p (length bs)
    ∙ ap₂ (λ us vs. us ++ vs) (read-write_below m 0 p p bs (omega arith) ∙ e)
        (ap (λ q. read_bytes (write_bytes m p bs) q (length bs)) {x = 0 + p} {y = p} (omega arith)
          ∙ read-write m p bs)

pub write_bytes-above :
    (m : Memory) (p : ℕ) (bs : List ℕ) (o : ℕ) → p + length bs ≤ o → write_bytes m p bs o ≡ m o
unfolding write_bytes
write_bytes-above m p [] o le = refl
write_bytes-above m p (b ∷ bs) o le =
    write_bytes-above (put m p b) (suc p) bs o (omega arith) ∙ ground arith
