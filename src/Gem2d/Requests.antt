-- ===== src/Gem2d/Requests.antt =====
-- The requests of gem2d.cpp to the kernel: the batches that they execute, and whether the GPU may
-- still read a batch.
use haiku_vaio_vpceb3k1e.Prelude.{
  ℕ, ◌≡◌, refl, ap, ◌∙◌, Bool, true, false, List, [], ◌∷◌, ◌++◌, if◌then◌else◌, ◌==◌, length,
  Bool-cases, inl, inr,
}
use haiku_vaio_vpceb3k1e.Gem2d.{
  Request, create, clone_area, delete_area, close, wait, set_domain, execbuffer, trailer,
}

-- The batches of a log, in their order.
abbrev pub executed : List Request → List (List ℕ)
executed [] = []
executed (execbuffer h bytes ∷ rest) = bytes ∷ executed rest
executed (create n ∷ rest) = executed rest
executed (clone_area a ∷ rest) = executed rest
executed (delete_area a ∷ rest) = executed rest
executed (close h ∷ rest) = executed rest
executed (wait h ∷ rest) = executed rest
executed (set_domain h ∷ rest) = executed rest

-- Commands as a batch of the kernel.
abbrev pub closed : List ℕ → List ℕ
closed commands = commands ++ trailer (length commands)

-- Whether a buffer is busy behind a log: it was executed, and there was no wait for it since.
abbrev pub busy : Bool → List Request → ℕ → Bool
busy b [] h = b
busy b (execbuffer g bytes ∷ rest) h = busy (if g == h then true else b) rest h
busy b (wait g ∷ rest) h = busy (if g == h then false else b) rest h
busy b (create n ∷ rest) h = busy b rest h
busy b (clone_area a ∷ rest) h = busy b rest h
busy b (delete_area a ∷ rest) h = busy b rest h
busy b (close g ∷ rest) h = busy b rest h
busy b (set_domain g ∷ rest) h = busy b rest h

pub executed-append : (xs ys : List Request) → executed (xs ++ ys) ≡ executed xs ++ executed ys
executed-append [] ys = refl
executed-append (execbuffer h bytes ∷ rest) ys = ap (λ bs. bytes ∷ bs) (executed-append rest ys)
executed-append (create n ∷ rest) ys = executed-append rest ys
executed-append (clone_area a ∷ rest) ys = executed-append rest ys
executed-append (delete_area a ∷ rest) ys = executed-append rest ys
executed-append (close h ∷ rest) ys = executed-append rest ys
executed-append (wait h ∷ rest) ys = executed-append rest ys
executed-append (set_domain h ∷ rest) ys = executed-append rest ys

pub busy-append :
    (b : Bool) (xs ys : List Request) (h : ℕ) → busy b (xs ++ ys) h ≡ busy (busy b xs h) ys h
busy-append b [] ys h = refl
busy-append b (execbuffer g bytes ∷ rest) ys h = busy-append (if g == h then true else b) rest ys h
busy-append b (create n ∷ rest) ys h = busy-append b rest ys h
busy-append b (clone_area a ∷ rest) ys h = busy-append b rest ys h
busy-append b (delete_area a ∷ rest) ys h = busy-append b rest ys h
busy-append b (close g ∷ rest) ys h = busy-append b rest ys h
busy-append b (wait g ∷ rest) ys h = busy-append (if g == h then false else b) rest ys h
busy-append b (set_domain g ∷ rest) ys h = busy-append b rest ys h

-- A wait leaves a buffer idle that was, or that it waits for.
pub busy-wait :
    (b : Bool) (xs : List Request) (g h : ℕ)
    → busy b xs h ≡ false
    → busy b (xs ++ (wait g ∷ [])) h ≡ false
busy-wait b xs g h idle =
    busy-append b xs (wait g ∷ []) h
    ∙ rw idle (elim (Bool-cases (g == h)) [ inl e ↦ rw e refl | inr e ↦ rw e refl ])
